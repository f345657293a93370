-- ===== src/Runtime.antt =====
-- src/main.c and src/util/heartbeat.c: what the loop of the server does when the CAN socket or the
-- timer is ready, and the shutdown.
pub mod Timer
pub mod Shutdown
pub mod Loop
use static_fire.Base.{
  Bytes, ℕ, zero, suc, ◌+◌, ◌%◌, ◌^◌, Bool, true, false, Option, none, some, List, [], ◌∷◌, ltb,
  leb, if◌then◌else◌, length,
}
use static_fire.App.{App, CanFrame, Env, called}
use static_fire.Bridge.{broadcast_text, ws_bridge_stop}
use static_fire.Bus.{send_command, store_rx, format_dirty}
use static_fire.Wiggle.{wiggle_process, wiggle_stop_all}
use static_fire.Firing.{request_abort}

abbrev pub heartbeat_period_ms : ℕ
heartbeat_period_ms = 1000

abbrev pub heartbeat_can_id : ℕ
heartbeat_can_id = 0x001

abbrev pub heartbeat_value : ℕ
heartbeat_value = 0x0001

abbrev pub buffer_size : ℕ
buffer_size = 8192

-- The loop that moves the time of the next heartbeat; `none` means that the fuel ran out.
unfoldable pub catch_up : ℕ → ℕ → ℕ → Option ℕ
catch_up zero now next = none
catch_up (suc fuel) now next =
    let later = (next + heartbeat_period_ms) % 2 ^ 64 in
    let again = catch_up fuel now later in if leb later now then again else some later

module _ (env : Env) where
  unfoldable pub flush_text : Bytes × App → App
  flush_text (text, s) = if ltb 0 (length text) then broadcast_text env s text true else s

  unfoldable pub flush_can_updates : App → App
  unfolding flush_text
  flush_can_updates s = flush_text (format_dirty s buffer_size)

  unfoldable pub heartbeat_send : App → App × Bool
  heartbeat_send s = send_command env s heartbeat_can_id heartbeat_value 0

  -- The time of the next heartbeat is a variable of `main`.
  unfoldable pub on_timer : ℕ → App → ℕ → App × Option ℕ
  unfolding flush_can_updates heartbeat_send catch_up
  on_timer fuel s next =
      let moved = wiggle_process env s in
      let now = env.monotonic_ms moved.calls in
      if leb next now
      then (flush_can_updates (heartbeat_send (called moved)).0, catch_up fuel now next)
      else (flush_can_updates (called moved), some next)

  unfoldable pub shutdown_runtime : App → App
  unfolding ws_bridge_stop
  shutdown_runtime s = record (ws_bridge_stop (wiggle_stop_all env (request_abort s) true)) {
    timer_fd = none;
    epoll_fd = none;
    can_fd = none;
  }
