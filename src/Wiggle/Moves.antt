-- ===== src/Wiggle/Moves.antt =====
-- src/control/wiggle.c: which parts of the state the operations change.
use static_fire.Base.{
  ℕ, Bool, true, false, Option, none, some, List, [], ◌∷◌, ◌≡◌, refl, arith, Bool-cases, inl, inr,
  Bool-cases, ltb, ◌==◌, ◌||◌,
}
use static_fire.App.View.{
  view, Wrote, Wrote-none, Wrote-trans, Moved, Moved-none, Moved-called, Moved-set,
}
use static_fire.App.{App, AppState, prechilling, hotfire, Env, called}
use static_fire.Bridge.Silent.{view-broadcast_text}
use static_fire.Bus.{send_command}
use static_fire.Bus.Frames.{send_command-Wrote}
use static_fire.Wiggle.{
  Slot, log_sent, send_value, deactivate_slot, start_in, wiggle_start, stop_in, wiggle_stop,
  stop_slots, wiggle_stop_all, process_slot, process_slots, process_in, wiggle_process, filled,
  next_value, or_alloc, find_slot,
}

module _ (env : Env) where
  pub view-log_sent : (id value : ℕ) (p : App × Bool) → view (log_sent env id value p) ≡ view p.0
  unfolding log_sent view
  view-log_sent id value (s, true) = refl
  view-log_sent id value (s, false) = refl

  pub send_value-Wrote :
      (s : App) (w : Slot) (value : ℕ) → Wrote (view s) (view (send_value env s w value).1)
  unfolding send_value
  send_value-Wrote s w value =
      Wrote-trans (send_command-Wrote env s w.id value 0)
        (Wrote-none (view-log_sent w.id value (send_command env s w.id value 0)))

  pub deactivate_slot-Wrote :
      (s : App) (w : Slot) (exit : Bool) → Wrote (view s) (view (deactivate_slot env s w exit).1)
  unfolding deactivate_slot
  deactivate_slot-Wrote s w true = elim (Bool-cases w.active) [
    | inl h ↦ rw h (send_value-Wrote s w w.exit_value)
    | inr h ↦ rw h (Wrote-none refl)
  ]
  deactivate_slot-Wrote s w false = elim (Bool-cases w.active) [
    | inl h ↦ rw h (Wrote-none refl)
    | inr h ↦ rw h (Wrote-none refl)
  ]

  start_in-Moved :
      (s : App) (slot : Option (ℕ × Slot)) (id a b c period total : ℕ)
      → Moved (view s) (view (start_in env s slot id a b c period total).0)
  unfolding start_in
  start_in-Moved s none id a b c period total = Moved-none s
  start_in-Moved s (some (i, w)) id a b c period total =
      let filled_in = filled w (env.monotonic_ms s.calls) id a b c period total in
      Moved-called s (Moved-set (called s) _ _ (send_value-Wrote (called s) filled_in a))

  pub wiggle_start-Moved :
      (s : App) (id a b c period total : ℕ)
      → Moved (view s) (view (wiggle_start env s id a b c period total).0)
  unfolding wiggle_start
  wiggle_start-Moved s id a b c period total =
      let slot = or_alloc (find_slot id s.wiggles) s.wiggles in
      elim (Bool-cases (period == 0 || ltb 0x7FF id)) [
        | inl h ↦ rw h (Moved-none s)
        | inr h ↦ rw h (start_in-Moved s slot id a b c period total)
      ]

  stop_in-Moved :
      (s : App) (slot : Option (ℕ × Slot)) → Moved (view s) (view (stop_in env s slot).0)
  unfolding stop_in
  stop_in-Moved s none = Moved-none s
  stop_in-Moved s (some (i, w)) = Moved-set s _ _ (deactivate_slot-Wrote s w true)

  pub wiggle_stop-Moved : (s : App) (id : ℕ) → Moved (view s) (view (wiggle_stop env s id).0)
  unfolding wiggle_stop
  wiggle_stop-Moved s id = stop_in-Moved s (find_slot id s.wiggles)

  stop_slots-Wrote :
      (exit : Bool) (ws : List Slot) (s : App) (n : ℕ)
      → Wrote (view s) (view (stop_slots env exit ws s n).1)
  unfolding stop_slots
  stop_slots-Wrote exit [] s n = Wrote-none refl
  stop_slots-Wrote exit (w ∷ ws) s n =
      Wrote-trans (deactivate_slot-Wrote s w exit) (stop_slots-Wrote exit ws _ _)

  pub wiggle_stop_all-Moved :
      (s : App) (exit : Bool) → Moved (view s) (view (wiggle_stop_all env s exit))
  unfolding wiggle_stop_all
  wiggle_stop_all-Moved s exit =
      let stopped = stop_slots-Wrote exit s.wiggles s 0 in
      elim (Bool-cases (ltb 0 (stop_slots env exit s.wiggles s 0).2)) [
        | inl h ↦ rw h (rw (view-broadcast_text) (Moved-set s _ _ stopped))
        | inr h ↦ rw h (Moved-set s _ _ stopped)
      ]

  process_slot-Wrote :
      (now : ℕ) (s : App) (w : Slot) → Wrote (view s) (view (process_slot env now s w).1)
  unfolding process_slot
  process_slot-Wrote now s w = ground (
    arith,
    Wrote-none {v = view s} refl,
    deactivate_slot-Wrote s w true,
    send_value-Wrote s w (next_value w),
  )

  process_slots-Wrote :
      (now : ℕ) (ws : List Slot) (s : App) → Wrote (view s) (view (process_slots env now ws s).1)
  unfolding process_slots
  process_slots-Wrote now [] s = Wrote-none refl
  process_slots-Wrote now (w ∷ ws) s =
      Wrote-trans (process_slot-Wrote now s w) (process_slots-Wrote now ws _)

  process_in-Moved : (st : AppState) (s : App) → Moved (view s) (view (process_in env st s))
  unfolding process_in
  process_in-Moved hotfire s = Moved-none s
  process_in-Moved prechilling s = Moved-called s (
      Moved-set (called s) _ _
        (process_slots-Wrote (env.monotonic_ms s.calls) s.wiggles (called s)))

  pub wiggle_process-Moved : (s : App) → Moved (view s) (view (wiggle_process env s))
  unfolding wiggle_process
  wiggle_process-Moved s = process_in-Moved s.state s
