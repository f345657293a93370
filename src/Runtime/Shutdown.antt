-- ===== src/Runtime/Shutdown.antt =====
-- src/main.c: what the shutdown leaves.
use static_fire.Base.{ℕ, true, false, none, some, ◌≡◌, refl, arith, ap, ◌∙◌}
use static_fire.App.View.{View, view}
use static_fire.App.{App, Env, frames}
use static_fire.Bridge.{ws_bridge_stop}
use static_fire.Firing.{request_abort}
use static_fire.Runtime.{shutdown_runtime}
use static_fire.Wiggle.Exits.{exits, wiggle_stop_all-exits}
use static_fire.Wiggle.Moves.{wiggle_stop_all-Moved}
use static_fire.Wiggle.Slots.{Idle, IsTable}
use static_fire.Wiggle.Stop.{wiggle_stop_all-Idle}
use static_fire.Wiggle.{wiggle_stop_all}

-- What the shutdown leaves of a server.
pub record IsStopped (t : App) : Type 0 where
  pub idle : Idle t.wiggles
  pub abort : t.sequence_abort ≡ true
  pub no_ws : t.ws ≡ false
  pub no_can : t.can_fd ≡ none
  pub no_timer : t.timer_fd ≡ none
  pub no_epoll : t.epoll_fd ≡ none

-- Closing the descriptors and the WebSocket server behind the wiggles.
closed-IsStopped :
    (s : App)
    → Idle s.wiggles
    → s.sequence_abort ≡ true
    → IsStopped (record (ws_bridge_stop s) { timer_fd = none; epoll_fd = none; can_fd = none })
unfolding ws_bridge_stop
closed-IsStopped s h a = record {
  idle = ground (arith, h);
  abort = ground (arith, a);
  no_ws = ground arith;
  no_can = refl;
  no_timer = refl;
  no_epoll = refl;
}

frames-ws_bridge_stop : (s : App) → frames (ws_bridge_stop s).events ≡ frames s.events
unfolding ws_bridge_stop
frames-ws_bridge_stop s = ground arith

module _ (env : Env) where
  stop_all-abort : (s : App) → (wiggle_stop_all env (request_abort s) true).sequence_abort ≡ true
  unfolding view request_abort
  stop_all-abort s =
      ap (λ (v : View). v.sequence_abort) (wiggle_stop_all-Moved env (request_abort s) true).after

  pub shutdown_runtime_lem : (s : App) → IsStopped (shutdown_runtime env s)
  unfolding shutdown_runtime
  shutdown_runtime_lem s =
      let done = wiggle_stop_all env (request_abort s) true in
      closed-IsStopped done (wiggle_stop_all-Idle env (request_abort s) true).0 (stop_all-abort s)

  stop_all-exits :
      (s : App) {fd : ℕ}
      → s.can_fd ≡ some fd
      → ((n : ℕ) → env.write_ok n ≡ true)
      → IsTable s.wiggles
      → frames (wiggle_stop_all env (request_abort s) true).events
        ≡ exits s.wiggles (frames s.events)
  unfolding request_abort
  stop_all-exits s f o t = wiggle_stop_all-exits env (record s { sequence_abort = true }) f o t

  -- The shutdown of a server with a well-formed table, on a CAN socket that is open and takes each
  -- frame, writes the exit value of every active slot before it closes the socket, and nothing else;
  -- it sets the flag of the abort, and leaves no active slot, no WebSocket server and no CAN, timer or
  -- epoll descriptor.
  pub shutdown_runtime-IsStopped :
      (s : App) {fd : ℕ}
      → s.can_fd ≡ some fd
      → ((n : ℕ) → env.write_ok n ≡ true)
      → IsTable s.wiggles
      → IsStopped (shutdown_runtime env s)
        × (frames (shutdown_runtime env s).events ≡ exits s.wiggles (frames s.events))
  unfolding shutdown_runtime
  shutdown_runtime-IsStopped s f o t =
      let done = wiggle_stop_all env (request_abort s) true in
      (shutdown_runtime_lem s, frames-ws_bridge_stop done ∙ stop_all-exits s f o t)
