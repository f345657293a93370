-- ===== src/Wiggle/Exits.antt =====
-- src/control/wiggle.c: the exit values that `wiggle_stop_all` puts on the bus.
use static_fire.Base.{
  ℕ, ◌≤◌, true, false, some, List, [], ◌∷◌, ◌≡◌, refl, ◌∙◌, ap, All, Bool-cases, inl, inr, ltb,
  if◌then◌else◌,
}
use static_fire.App.View.{View, view}
use static_fire.App.{App, CanFrame, Env, frames}
use static_fire.Bridge.Silent.{view-broadcast_text}
use static_fire.Bus.{send_command, command_frame}
use static_fire.Bus.Frames.{send_command-frames, send_command-taken}
use static_fire.Wiggle.Moves.{view-log_sent, deactivate_slot-Wrote}
use static_fire.Wiggle.Slots.{IsSlot, IsTable}
use static_fire.Wiggle.{Slot, send_value, deactivate_slot, stop_slots, wiggle_stop_all}

-- The bus, newest first, behind the exit values of the active slots, in the order of the table.
abbrev pub exits : List Slot → List CanFrame → List CanFrame
exits [] fs = fs
exits (w ∷ ws) fs = exits ws (if w.active then command_frame w.id w.exit_value 0 ∷ fs else fs)

module _ (env : Env) where
  bus-view : (s t : App) → view t ≡ view s → frames t.events ≡ frames s.events
  unfolding view
  bus-view s t e = ap (λ (v : View). v.on_bus) e

  deactivate_slot-fd : (s : App) (w : Slot) → (deactivate_slot env s w true).1.can_fd ≡ s.can_fd
  unfolding view
  deactivate_slot-fd s w = ap (λ (v : View). v.can_fd) (deactivate_slot-Wrote env s w true).after

  send_value-frames :
      (s : App) (w : Slot) (value : ℕ) {fd : ℕ}
      → s.can_fd ≡ some fd
      → env.write_ok s.calls ≡ true
      → w.id ≤ 0x7FF
      → frames (send_value env s w value).1.events ≡ command_frame w.id value 0 ∷ frames s.events
  unfolding send_value
  send_value-frames s w value f o h =
      bus-view _ _ (view-log_sent env w.id value (send_command env s w.id value 0))
      ∙ send_command-frames env s w.id value 0
      ∙ rw (send_command-taken env s w.id value 0 f o h) refl

  deactivate_slot-frames :
      (s : App) (w : Slot) {fd : ℕ}
      → s.can_fd ≡ some fd
      → env.write_ok s.calls ≡ true
      → IsSlot w
      → frames (deactivate_slot env s w true).1.events ≡ (
          if w.active then command_frame w.id w.exit_value 0 ∷ frames s.events else frames s.events)
  unfolding deactivate_slot
  deactivate_slot-frames s w f o h = elim (Bool-cases w.active) [
    | inl k ↦ rw k (send_value-frames s w w.exit_value f o (h k).0)
    | inr k ↦ rw k refl
  ]

  stop_slots-exits :
      ((n : ℕ) → env.write_ok n ≡ true)
      → (ws : List Slot) (s : App) (n : ℕ) {fd : ℕ} → s.can_fd ≡ some fd
      → All IsSlot ws
      → frames (stop_slots env true ws s n).1.events ≡ exits ws (frames s.events)
  unfolding stop_slots
  stop_slots-exits o [] s n f a = refl
  stop_slots-exits o (w ∷ ws) s n f a =
      stop_slots-exits o ws (deactivate_slot env s w true).1 _ (deactivate_slot-fd s w ∙ f) a.1
      ∙ ap (exits ws) (deactivate_slot-frames s w f (o s.calls) a.0)

  -- On a socket that is open and takes each frame, `wiggle_stop_all` with exit values, as an abort, a
  -- change to HOTFIRE and the shutdown call it, writes the exit value of every active slot of a
  -- well-formed table, once each, in the order of the table, and nothing else.
  pub wiggle_stop_all-exits :
      (s : App) {fd : ℕ}
      → s.can_fd ≡ some fd
      → ((n : ℕ) → env.write_ok n ≡ true)
      → IsTable s.wiggles
      → frames (wiggle_stop_all env s true).events ≡ exits s.wiggles (frames s.events)
  unfolding wiggle_stop_all
  wiggle_stop_all-exits s f o t =
      let e = stop_slots-exits o s.wiggles s 0 f t.slots in
      elim (Bool-cases (ltb 0 (stop_slots env true s.wiggles s 0).2)) [
        | inl h ↦ rw h (bus-view _ _ (view-broadcast_text env _ _ false) ∙ e)
        | inr h ↦ rw h e
      ]
