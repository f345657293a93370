-- ===== src/Boot.antt =====
-- src/main.c and src/can/can_bus.c: starting the server. The interface is configured, the descriptors
-- are opened and watched, the WebSocket server is started, and what is open is closed when a step fails.
pub mod Interface
pub mod Held
pub mod Main
pub mod Ready
pub mod Start
use static_fire.Base.Int.{ℤ, pos, negsuc}
use static_fire.Base.{
  Bytes, ℕ, suc, ◌*◌, ◌/◌, ◌%◌, Bool, true, false, Option, none, some, List, [], ◌∷◌, if◌then◌else◌,
}
use static_fire.App.{App, Env}
use static_fire.Boot.Interface.{
  Host, Starting, started, and_then, can_bus_configure_interface, can_bus_open,
}
use static_fire.Logger.Maintenance.{logger_close}
use static_fire.Runtime.{shutdown_runtime}

-- `{tv_sec, tv_nsec}` of an interval in milliseconds; C divides towards 0.
unfoldable pub timer_value : ℤ → ℕ × ℕ × Bool
timer_value (pos n) = (n / 1000, n % 1000 * 1000000, false)
timer_value (negsuc n) = (suc n / 1000, suc n % 1000 * 1000000, true)

-- The descriptors of `app` that `shutdown_runtime` closes, in its order, in front of those closed before.
abbrev pub closing : Option ℕ → List ℕ → List ℕ
closing none closed = closed
closing (some fd) closed = fd ∷ closed

module _ (host : Host) where
  -- The kernel refuses a negative descriptor.
  unfoldable pub register_fd : Option ℕ → Option ℕ → Starting → Starting × Bool
  register_fd (some epoll) (some fd) s =
      if host.epoll_ctl_ok s.calls
      then (record (started s) { watched = fd ∷ s.watched }, true)
      else (started s, false)
  register_fd _ _ s = (started s, false)

  unfoldable pub store_can : Starting × Option ℕ → Starting × Bool
  store_can (s, none) = (record s { app = record s.app { can_fd = none } }, false)
  store_can (s, some fd) = (record s { app = record s.app { can_fd = some fd } }, true)

  unfoldable pub open_can : Starting → Starting × Bool
  unfolding store_can can_bus_open
  open_can s = store_can (can_bus_open host s.app.config.can_ifname s)

  unfoldable pub store_epoll : Option ℕ → Starting → Starting × Bool
  store_epoll none s = (record s { app = record s.app { epoll_fd = none } }, false)
  store_epoll (some fd) s =
      (record s { app = record s.app { epoll_fd = some fd }; opened = fd ∷ s.opened }, true)

  unfoldable pub create_epoll : Starting → Starting × Bool
  unfolding store_epoll
  create_epoll s = store_epoll (host.epoll_create s.calls) (started s)

  unfoldable pub store_timer : Option ℕ → Starting → Starting × Bool
  store_timer none s = (record s { app = record s.app { timer_fd = none } }, false)
  store_timer (some fd) s =
      (record s { app = record s.app { timer_fd = some fd }; opened = fd ∷ s.opened }, true)

  unfoldable pub create_timer : Starting → Starting × Bool
  unfolding store_timer
  create_timer s = store_timer (host.timerfd_create s.calls) (started s)

  -- The first expiry and the interval are the same.
  unfoldable pub set_timer : Starting → Starting × Bool
  unfolding timer_value
  set_timer s =
      if host.settime_ok s.calls
      then (record (started s) { armed = some (timer_value s.app.config.tick_interval_ms) }, true)
      else (started s, false)

  unfoldable pub configure : Starting → Starting × Bool
  unfolding can_bus_configure_interface
  configure s =
      if s.app.config.auto_config_can
      then can_bus_configure_interface host s.app.config.can_ifname s.app.config.can_bitrate s
      else (s, true)

  unfoldable pub register_can : Starting → Starting × Bool
  unfolding register_fd
  register_can s = register_fd s.app.epoll_fd s.app.can_fd s

  unfoldable pub register_timer : Starting → Starting × Bool
  unfolding register_fd
  register_timer s = register_fd s.app.epoll_fd s.app.timer_fd s

  unfoldable pub init_can : Starting → Starting × Bool
  unfolding configure open_can create_epoll register_can create_timer set_timer register_timer
  init_can s = and_then register_timer (
      and_then set_timer (
        and_then create_timer
          (and_then register_can (and_then create_epoll (and_then open_can (configure s))))))

  unfoldable pub init_runtime : Starting → Starting × Bool
  unfolding init_can
  init_runtime s = if s.app.config.testing_mode then (s, true) else init_can s

  -- `ws_server_create`, then `ws_server_start`.
  unfoldable pub ws_bridge_start : Starting → Starting × Bool
  ws_bridge_start s =
      let created = record (started s) { app = record s.app { ws = true } } in
      if host.ws_create_ok s.calls
      then (started created, host.ws_start_ok (suc s.calls))
      else (record (started s) { app = record s.app { ws = false } }, false)

-- `shutdown_runtime` and the descriptors that it closes.
unfoldable pub shut : Env → Starting → Starting
unfolding shutdown_runtime logger_close
shut env s = record s {
  app = shutdown_runtime env s.app;
  logger = logger_close s.logger;
  closed = closing s.app.can_fd (closing s.app.epoll_fd (closing s.app.timer_fd s.closed));
}
