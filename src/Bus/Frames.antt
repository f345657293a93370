-- ===== src/Bus/Frames.antt =====
-- src/can/can_bus.c: what `can_bus_send_command` puts on the bus.
use static_fire.Base.{
  ℕ, ◌≤◌, ◌<◌, ◌^◌, true, false, [], ◌∷◌, ◌≡◌, some, ◌⊎◌, inl, inr, refl, arith, if◌then◌else◌,
}
use static_fire.App.View.{view, IsClassic, Wrote, Wrote-none}
use static_fire.App.{App, Env, frames}
use static_fire.Bus.{command_frame, send_command, attempt, frame_value}

pub command_frame-IsClassic :
    (id value duration_ms : ℕ) → id ≤ 0x7FF → IsClassic (command_frame id value duration_ms)
unfolding command_frame
command_frame-IsClassic id value duration_ms h = record {
  standard_id = h;
  full = refl;
  eight = refl;
  bytes = omega arith;
}

-- Either the call succeeds, the id is a standard one and the frame of the command is on the bus; or it
-- fails, and nothing has changed but what every call changes.
pub send_command-cases :
    (env : Env) (s : App) (id value d : ℕ)
    → ((id ≤ 0x7FF)
        × ((send_command env s id value d).1 ≡ true)
        × (view (send_command env s id value d).0
            ≡ record (view s) { on_bus = command_frame id value d ∷ (view s).on_bus }))
      ⊎ (((send_command env s id value d).1 ≡ false)
          × (view (send_command env s id value d).0 ≡ view s))
unfolding send_command attempt view
send_command-cases env s id value d = ground arith

pub send_command-Wrote :
    (env : Env) (s : App) (id value d : ℕ) → Wrote (view s) (view (send_command env s id value d).0)
send_command-Wrote env s id value d = elim (send_command-cases env s id value d) [
  | inl (h, _, e) ↦ record {
    new = command_frame id value d ∷ [];
    classic = (command_frame-IsClassic id value d h, tt);
    after = e;
  }
  | inr (_, e) ↦ Wrote-none e
]

-- The receiver reads the value that was sent.
pub frame_value-command_frame :
    (id value d : ℕ) → value < 2 ^ 16 → frame_value (command_frame id value d) ≡ value
unfolding frame_value command_frame
frame_value-command_frame id value d h = omega arith

-- A frame is on the bus exactly if the call succeeds.
pub send_command-frames :
    (env : Env) (s : App) (id value d : ℕ)
    → frames (send_command env s id value d).0.events ≡ (
        if (send_command env s id value d).1
        then command_frame id value d ∷ frames s.events
        else frames s.events)
unfolding send_command attempt
send_command-frames env s id value d = ground arith

-- With a socket that takes the frame, a standard id is enough.
pub send_command-taken :
    (env : Env) (s : App) (id value d : ℕ) {fd : ℕ}
    → s.can_fd ≡ some fd
    → env.write_ok s.calls ≡ true
    → id ≤ 0x7FF
    → (send_command env s id value d).1 ≡ true
unfolding send_command attempt
send_command-taken env s id value d f w h = ground arith
