-- ===== src/Safety/Abort.antt =====
-- src/control/command.c: what an abort does.
use static_fire.Base.{
  Bytes, ℕ, Bool, true, false, none, some, ◌≡◌, refl, ◌∙◌, sym, ap, subst, arith, inl, inr, ◌⊎◌,
  if◌then◌else◌,
}
use static_fire.Text.{lit, equal, starts_with}
use static_fire.App.View.{View, view}
use static_fire.App.{App, Env}
use static_fire.Bridge.{send_text}
use static_fire.Bridge.Silent.{view-send_text}
use static_fire.Wiggle.Moves.{wiggle_stop_all-Moved}
use static_fire.Wiggle.Slots.{Idle}
use static_fire.Wiggle.Stop.{wiggle_stop_all-Idle}
use static_fire.Wiggle.{wiggle_stop_all}
use static_fire.Firing.{request_abort}
use static_fire.Command.Live.{handle_abort}
use static_fire.Command.{handle_read_toggle, handle_control, command_handle_text, strip_can_prefix}

module _ (env : Env) where
  -- What an abort leaves.
  Aborted : App → Type 0
  Aborted t = (t.sequence_abort ≡ true) × Idle t.wiggles

  answer-Aborted : (t : App) (c : ℕ) (msg : Bytes) → Aborted t → Aborted (send_text env t c msg)
  unfolding Aborted view
  answer-Aborted t c msg a =
      let e = view-send_text env t c msg in
      (
        ap (λ (v : View). v.sequence_abort) e ∙ a.0,
        subst Idle (sym (ap (λ (v : View). v.wiggles) e)) a.1,
      )

  stop_all-Aborted : (s : App) → Aborted (wiggle_stop_all env (request_abort s) true)
  unfolding Aborted view request_abort
  stop_all-Aborted s =
      let t = request_abort s in
      (
        ap (λ (v : View). v.sequence_abort) (wiggle_stop_all-Moved env t true).after,
        (wiggle_stop_all-Idle env t true).0,
      )

  handle_abort-Aborted :
      (s : App) (c : ℕ) (text : Bytes)
      → equal text (lit "ABORT#8765") ≡ true
      → (t : App) × (handle_abort env s c text ≡ some t) × Aborted t
  unfolding handle_abort
  handle_abort-Aborted s c text h = (
    send_text env (wiggle_stop_all env (request_abort s) true) c (lit "Abort requested"),
    rw h refl,
    answer-Aborted _ c _ (stop_all-Aborted s),
  )

  no_toggle :
      (s : App) (c : ℕ) (text : Bytes)
      → equal text (lit "READ-DISABLE") ≡ false
      → equal text (lit "READ-ENABLE") ≡ false
      → handle_read_toggle env s c text ≡ none
  unfolding handle_read_toggle
  no_toggle s c text h k = ground arith

  handle_control-Aborted :
      (s : App) (c : ℕ) (text : Bytes)
      → equal text (lit "ABORT#8765") ≡ true
      → Aborted (handle_control env s c text)
  unfolding handle_control
  handle_control-Aborted s c text l =
      let (t, e, done) = handle_abort-Aborted s c text l in rw e done

  allowed :
      (a b : Bool) (t u v : App)
      → a ≡ false
      → b ≡ false
      → Aborted v
      → Aborted (if a then t else if b then u else v)
  allowed true b t u v h k x = absurd (cc h)
  allowed false true t u v h k x = absurd (cc k)
  allowed false false t u v h k x = x

  taken :
      (s : App) (c : ℕ) (text : Bytes)
      → s.config.testing_mode ≡ false
      → s.config.read_only ≡ false
      → equal text (lit "READ-DISABLE") ≡ false
      → equal text (lit "READ-ENABLE") ≡ false
      → equal (strip_can_prefix text) (lit "ABORT#8765") ≡ true
      → Aborted (command_handle_text env s c text)
  unfolding command_handle_text
  taken s c text a b h k l = rw (no_toggle s c text h k) (
      allowed s.config.testing_mode s.config.read_only _ _ _ a b
        (handle_control-Aborted s c (strip_can_prefix text) l))

  -- An abort is not held back by the state: in a server that takes commands, with or without the
  -- prefix of the bus, it asks the sequence to stop and leaves no wiggle active.
  pub command_handle_text-abort :
      (s : App) (c : ℕ) (text : Bytes)
      → s.config.testing_mode ≡ false
      → s.config.read_only ≡ false
      → (text ≡ lit "ABORT#8765") ⊎ (text ≡ lit "CAN1|ABORT#8765")
      → ((command_handle_text env s c text).sequence_abort ≡ true)
        × Idle (command_handle_text env s c text).wiggles
  unfolding Aborted equal strip_can_prefix starts_with lit
  command_handle_text-abort s c text a b (inl e) =
      taken s c text a b (rw e refl) (rw e refl) (rw e refl)
  command_handle_text-abort s c text a b (inr e) =
      taken s c text a b (rw e refl) (rw e refl) (rw e refl)
