-- ===== src/Safety/Starts.antt =====
-- src/control/command.c: who may start the thread of a sequence, through the whole dispatch.
use static_fire.Base.{
  Bytes, ℕ, Bool, true, false, refl, arith, Bool-cases, inl, inr, if◌then◌else◌, drop,
}
use static_fire.Text.{lit, equal, starts_with}
use static_fire.App.{App, AppState, prechilling, hotfire, Env, called}
use static_fire.Bridge.{send_text, set_write_only}
use static_fire.Firing.{start_drown, request_abort, firing_sequence_parse}
use static_fire.Command.Fields.{arguments, is_wiggle, parse_raw_can_fields, parse_valve}
use static_fire.Command.Live.{
  handle_abort, handle_state_command, handle_set_valve, handle_wiggle_stop, handle_wiggle,
  handle_drown, handle_fire, handle_raw_can,
}
use static_fire.Command.{
  handle_read_toggle, handle_hotfire, handle_operation, handle_control, command_handle_text,
  strip_can_prefix,
}
use static_fire.Safety.Dispatch.{view-handle_testing_command}
use static_fire.Safety.Claims.{
  Claimed, Kept-trans, Kept-view, called-Kept, Handled, Handled-unless, or_else-Claimed,
  Kept-Claimed,
}
use static_fire.Safety.Claims.Steps.{
  answer, reply, abort-Kept, stop_all-Kept, state_command-Claimed, set_valve-Claimed,
  stop_all_ids-Kept, wiggle_in-Claimed, raw_can-Claimed, answer_unless, start_drown-Claimed,
  fire-Claimed,
}

module _ (env : Env) (s : App) (c : ℕ) (text : Bytes) where
  handle_abort-Claimed : Handled s (handle_abort env s c text)
  unfolding handle_abort
  handle_abort-Claimed = Handled-unless (equal text (lit "ABORT#8765")) s _ (
      answer env _ c _
        (inl (Kept-trans (abort-Kept env s) (stop_all-Kept env (request_abort s) true))))

  handle_state_command-Claimed : Handled s (handle_state_command env s c text)
  unfolding handle_state_command
  handle_state_command-Claimed = ground (
    arith,
    state_command-Claimed env s c prechilling (lit "PRECHILLING"),
    state_command-Claimed env s c hotfire (lit "HOTFIRE"),
    reply env s c (lit "Unknown state requested"),
  )

  handle_set_valve-Claimed : Handled s (handle_set_valve env s c text)
  unfolding handle_set_valve
  handle_set_valve-Claimed =
      Handled-unless (starts_with (lit "SET_VALVE") text) s _
        (set_valve-Claimed env s c (parse_valve (drop 9 text)))

  handle_wiggle_stop-Claimed : Handled s (handle_wiggle_stop env s c text)
  unfolding handle_wiggle_stop
  handle_wiggle_stop-Claimed =
      Handled-unless (starts_with (lit "WIGGLE_STOP") text) s _
        (answer env _ c _ (inl (stop_all_ids-Kept env (arguments text) s 0)))

  handle_wiggle-Claimed : Handled s (handle_wiggle env s c text)
  unfolding handle_wiggle
  handle_wiggle-Claimed =
      Handled-unless (is_wiggle text) s _ (wiggle_in-Claimed env s.state s c text)

  handle_drown-Claimed : Handled s (handle_drown env s c text)
  unfolding handle_drown
  handle_drown-Claimed = Handled-unless (equal text (lit "DROWN#8765")) s _ (
      answer_unless env (start_drown env s c) c (lit "Error drowning injector")
        (start_drown-Claimed env s c))

  handle_fire-Claimed : Handled s (handle_fire env s c text)
  unfolding handle_fire
  handle_fire-Claimed = Handled-unless (starts_with (lit "FIRE#8765") text) s _ (
      Kept-Claimed (called-Kept s)
        (fire-Claimed env (called s) c (firing_sequence_parse (env.malloc_ok s.calls) text)))

  handle_raw_can-Claimed : Handled s (handle_raw_can env s c text)
  unfolding handle_raw_can
  handle_raw_can-Claimed = raw_can-Claimed env s c (parse_raw_can_fields text)

  clients-Claimed :
      (b : Bool) (msg : Bytes)
      → Claimed s (send_text env (record s { clients = set_write_only c b s.clients }) c msg)
  clients-Claimed b msg =
      answer env _ c msg
        (inl (record { same_threads = refl; same_active = refl; abort_kept = λ _ h. h }))

  handle_read_toggle-Claimed : Handled s (handle_read_toggle env s c text)
  unfolding handle_read_toggle
  handle_read_toggle-Claimed = ground (
    arith,
    clients-Claimed true (lit "Write-only mode enabled"),
    clients-Claimed false (lit "Write-only mode disabled"),
  )

module _ (env : Env) where
  handle_hotfire-Claimed :
      (st : AppState) (s : App) (c : ℕ) (text : Bytes) → Claimed s (handle_hotfire env st s c text)
  unfolding handle_hotfire
  handle_hotfire-Claimed prechilling s c text = reply env s c _
  handle_hotfire-Claimed hotfire s c text =
      or_else-Claimed _ _ (handle_drown-Claimed env s c text) (
        or_else-Claimed _ _ (handle_fire-Claimed env s c text)
          (or_else-Claimed _ _ (handle_raw_can-Claimed env s c text) (reply env s c _)))

  handle_operation-Claimed :
      (s : App) (c : ℕ) (text : Bytes) → Claimed s (handle_operation env s c text)
  unfolding handle_operation
  handle_operation-Claimed s c text = elim (Bool-cases (env.malloc_ok s.calls)) [
    | inr h ↦ rw h (Kept-Claimed (called-Kept s) (reply env (called s) c _))
    | inl h ↦ rw h (
        Kept-Claimed (called-Kept s) (
          or_else-Claimed _ _ (handle_wiggle_stop-Claimed env (called s) c text) (
            or_else-Claimed _ _ (handle_wiggle-Claimed env (called s) c text)
              (handle_hotfire-Claimed s.state (called s) c text))))
  ]

  handle_control-Claimed :
      (s : App) (c : ℕ) (text : Bytes) → Claimed s (handle_control env s c text)
  unfolding handle_control
  handle_control-Claimed s c text = or_else-Claimed _ _ (handle_abort-Claimed env s c text) (
      or_else-Claimed _ _ (handle_state_command-Claimed env s c text) (
        or_else-Claimed _ _ (handle_set_valve-Claimed env s c text)
          (handle_operation-Claimed s c text)))

either :
    {s : App} (b : Bool) {t u : App} → Claimed s t → Claimed s u → Claimed s (if b then t else u)
either true x y = x
either false x y = y

-- A text of a client creates at most one thread, and one only if no sequence is active, which is
-- active from then on; a text that creates none leaves the active flag, and an abort that was
-- requested of an active sequence.
pub command_handle_text-Claimed :
    (env : Env) (s : App) (c : ℕ) (text : Bytes) → Claimed s (command_handle_text env s c text)
unfolding command_handle_text
command_handle_text-Claimed env s c text =
    or_else-Claimed _ _ (handle_read_toggle-Claimed env s c text) (
      either s.config.testing_mode
        (inl (Kept-view s _ (view-handle_testing_command env s c (strip_can_prefix text))))
        (either s.config.read_only (reply env s c _)
          (handle_control-Claimed env s c (strip_can_prefix text))))
