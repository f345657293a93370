-- ===== src/Wiggle/Offered.antt =====
-- src/control/wiggle.c: what a tick writes to the CAN socket, whether it is taken or not.
use static_fire.Base.{
  ℕ, ◌≤◌, not, ◌&&◌, Option, none, some, List, [], ◌∷◌, ◌≡◌, refl, ◌∙◌, arith, All, Bool-cases,
  Option-cases, ap₂, inl, inr, ltb, leb, ◌==◌, if◌then◌else◌,
}
use static_fire.App.{
  App, AppState, prechilling, hotfire, CanFrame, Event, can_write, sent, pong, logged, spawned, Env,
  called,
}
use static_fire.Bus.{send_command, command_frame}
use static_fire.Wiggle.Slots.{IsSlot}
use static_fire.Wiggle.{
  Slot, next_value, is_over, log_sent, send_value, deactivate_slot, process_slot, process_slots,
  process_in, wiggle_process,
}

-- The frames of the calls of `write`, the newest first.
abbrev pub offered : List Event → List CanFrame
offered [] = []
offered (can_write frame ok ∷ es) = frame ∷ offered es
offered (sent c msg ∷ es) = offered es
offered (pong c ∷ es) = offered es
offered (logged kind text ∷ es) = offered es
offered (spawned args ∷ es) = offered es

-- A frame is written only where the socket is there.
abbrev pub put : Option ℕ → CanFrame → List CanFrame → List CanFrame
put none frame fs = fs
put (some fd) frame fs = frame ∷ fs

-- The frame that a slot gives at a tick: the exit value if its stop time is reached, else the other one
-- of its two values if it is due.
abbrev pub slot_frames : Option ℕ → ℕ → Slot → List CanFrame → List CanFrame
slot_frames fd now w fs =
    if not w.active
    then fs
    else if (ltb 0 w.total_duration_ms && ltb 0 w.stop_time_ms) && leb w.stop_time_ms now
    then put fd (command_frame w.id w.exit_value 0) fs
    else if ltb now w.next_toggle_ms
    then fs
    else put fd
        (command_frame w.id
          (if w.current_value == w.start_value then w.end_value else w.start_value) 0)
        fs

-- Those of a table, in its order.
abbrev pub tick_frames : Option ℕ → ℕ → List Slot → List CanFrame → List CanFrame
tick_frames fd now [] fs = fs
tick_frames fd now (w ∷ ws) fs = tick_frames fd now ws (slot_frames fd now w fs)

module _ (env : Env) where
  -- What sending a value offers, and that the socket stays.
  abbrev Offers : App → Slot → ℕ → App → Type 0
  Offers s w value t =
      (offered t.events ≡ put s.can_fd (command_frame w.id value 0) (offered s.events))
      × (t.can_fd ≡ s.can_fd)

  send_value-Offers :
      (s : App) (w : Slot) (value : ℕ)
      → w.id ≤ 0x7FF
      → Offers s w value (send_value env s w value).1
  unfolding send_value log_sent send_command
  send_value-Offers s w value le = elim (Option-cases s.can_fd) [
    | inl f ↦ (ground (arith, f), ground (arith, f))
    | inr (fd, f) ↦ (ground (arith, f), ground (arith, f))
  ]

  process_slot-offered :
      (now : ℕ) (s : App) (w : Slot)
      → IsSlot w
      → (offered (process_slot env now s w).1.events
          ≡ slot_frames s.can_fd now w (offered s.events))
        × ((process_slot env now s w).1.can_fd ≡ s.can_fd)
  unfolding process_slot deactivate_slot next_value is_over
  process_slot-offered now s w h = elim (Bool-cases w.active) [
    | inr off ↦ rw off (refl, refl)
    | inl on ↦
        let exit = send_value-Offers s w w.exit_value (h on).0 in
        let move = send_value-Offers s w (next_value w) (h on).0 in ground (arith, on, exit, move)
  ]

  process_slots-offered :
      (now : ℕ) (ws : List Slot) (s : App)
      → All IsSlot ws
      → offered (process_slots env now ws s).1.events
        ≡ tick_frames s.can_fd now ws (offered s.events)
  unfolding process_slots
  process_slots-offered now [] s a = refl
  process_slots-offered now (w ∷ ws) s a =
      let (one, kept) = process_slot-offered now s w a.0 in
      process_slots-offered now ws (process_slot env now s w).1 a.1
      ∙ ap₂ (λ fd fs. tick_frames fd now ws fs) kept one

  process_in-offered :
      (st : AppState) (s : App)
      → st ≡ prechilling
      → All IsSlot s.wiggles
      → offered (process_in env st s).events
        ≡ tick_frames s.can_fd (env.monotonic_ms s.calls) s.wiggles (offered s.events)
  unfolding process_in
  process_in-offered hotfire s p a = absurd (cc p)
  process_in-offered prechilling s p a =
      process_slots-offered (env.monotonic_ms s.calls) s.wiggles (called s) a

  pub wiggle_process-offered :
      (s : App)
      → s.state ≡ prechilling
      → All IsSlot s.wiggles
      → offered (wiggle_process env s).events
        ≡ tick_frames s.can_fd (env.monotonic_ms s.calls) s.wiggles (offered s.events)
  unfolding wiggle_process
  wiggle_process-offered s p a = process_in-offered s.state s p a
