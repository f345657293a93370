-- ===== src/State.antt =====
-- src/control/state.c: the two states of the system, and what a change of state brings with it.
use static_fire.Base.{Bool, true, false, ◌++◌}
use static_fire.Text.Print.{truncated}
use static_fire.Text.{lit}
use static_fire.App.{AppState, prechilling, hotfire, App, Env}
use static_fire.Bridge.{state_label, broadcast_text}
use static_fire.Wiggle.{wiggle_stop_all}

-- `!=` on the states
unfoldable pub differs : AppState → AppState → Bool
differs prechilling hotfire = true
differs hotfire prechilling = true
differs _ _ = false

abbrev pub app_state_get : App → AppState
app_state_get s = s.state

module _ (env : Env) where
  unfoldable pub state_broadcast : App → App
  unfolding state_label
  state_broadcast s =
      broadcast_text env s
        (truncated 64 (lit "State has been set to " ++ state_label (app_state_get s))) false

  unfoldable pub leave_prechilling : AppState → App → App
  leave_prechilling prechilling s = s
  leave_prechilling hotfire s = wiggle_stop_all env s true

  unfoldable pub state_set : App → AppState → App × Bool
  unfolding differs leave_prechilling state_broadcast
  state_set s state = (
    state_broadcast (leave_prechilling state (record s { state = state })),
    differs s.state state,
  )
