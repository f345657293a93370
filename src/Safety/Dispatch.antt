-- ===== src/Safety/Dispatch.antt =====
-- src/control/command.c: the safety of the server under the dispatch, in all modes.
use static_fire.Base.{
  Bytes, ℕ, Bool, true, false, List, ◌≡◌, refl, ◌∙◌, arith, drop, Bool-cases, inl, inr,
  if◌then◌else◌,
}
use static_fire.Text.{lit, equal, starts_with}
use static_fire.App.View.{view, view-called, Wrote-none}
use static_fire.App.{App, AppState, prechilling, hotfire, ClientCtx, Env, called}
use static_fire.Bridge.{send_text, set_write_only}
use static_fire.Firing.{request_abort, firing_sequence_parse, start_drown}
use static_fire.Command.Fields.{arguments, is_wiggle, parse_raw_can_fields, parse_valve}
use static_fire.Command.Live.{
  handle_abort, handle_state_command, handle_set_valve, handle_wiggle_stop, handle_wiggle,
  handle_drown, handle_fire, handle_raw_can,
}
use static_fire.Command.Testing.{
  handle_testing_command, handle_testing_copy, handle_testing_rest, testing_fire,
  testing_raw_or_invalid, testing_wiggle_stop, testing_wiggle, testing_state, testing_set_valve,
  count_ids, count_entries,
}
use static_fire.Bridge.Silent.{view-send_text}
use static_fire.Command.{
  handle_read_toggle, handle_hotfire, handle_operation, handle_control, command_handle_text,
  strip_can_prefix,
}
use static_fire.Safety.{IsSafe, IsSafe-Wrote}
use static_fire.Safety.Handlers.{
  IsSafe-send_text, stop_all-IsSafe, state_command-IsSafe, set_valve-IsSafe, request_abort-IsSafe,
  start_drown-IsSafe,
}
use static_fire.Safety.Commands.{
  Handled, Handled-unless, or_else-IsSafe, called-IsSafe, stop_all_ids-IsSafe, wiggle_in-IsSafe,
  fire-IsSafe, raw_can-IsSafe, reply_unless-IsSafe,
}

module _ (env : Env) (s : App) (c : ℕ) (text : Bytes) (x : IsSafe s) where
  handle_abort-IsSafe : Handled (handle_abort env s c text)
  unfolding handle_abort
  handle_abort-IsSafe = Handled-unless (equal text (lit "ABORT#8765")) _ (
      IsSafe-send_text env _ c _
        (stop_all-IsSafe env (request_abort s) true (request_abort-IsSafe env s x).sound))

  handle_state_command-IsSafe : Handled (handle_state_command env s c text)
  unfolding handle_state_command
  handle_state_command-IsSafe = ground (
    arith,
    state_command-IsSafe env s c prechilling (lit "PRECHILLING") x,
    state_command-IsSafe env s c hotfire (lit "HOTFIRE") x,
    IsSafe-send_text env s c (lit "Unknown state requested") x,
  )

  handle_set_valve-IsSafe : Handled (handle_set_valve env s c text)
  unfolding handle_set_valve
  handle_set_valve-IsSafe =
      Handled-unless (starts_with (lit "SET_VALVE") text) _
        (set_valve-IsSafe env s c (parse_valve (drop 9 text)) x)

  handle_wiggle_stop-IsSafe : Handled (handle_wiggle_stop env s c text)
  unfolding handle_wiggle_stop
  handle_wiggle_stop-IsSafe =
      Handled-unless (starts_with (lit "WIGGLE_STOP") text) _
        (IsSafe-send_text env _ c _ (stop_all_ids-IsSafe env (arguments text) s 0 x))

  handle_wiggle-IsSafe : Handled (handle_wiggle env s c text)
  unfolding handle_wiggle
  handle_wiggle-IsSafe =
      Handled-unless (is_wiggle text) _ (wiggle_in-IsSafe env s.state s c text refl x)

  handle_drown-IsSafe : Handled (handle_drown env s c text)
  unfolding handle_drown
  handle_drown-IsSafe = Handled-unless (equal text (lit "DROWN#8765")) _ (
      reply_unless-IsSafe env (start_drown env s c) c (lit "Error drowning injector")
        (start_drown-IsSafe env s c x))

  handle_fire-IsSafe : Handled (handle_fire env s c text)
  unfolding handle_fire
  handle_fire-IsSafe =
      Handled-unless (starts_with (lit "FIRE#8765") text) _
        (fire-IsSafe env (called s) c (env.malloc_ok s.calls) text (called-IsSafe s x))

  handle_raw_can-IsSafe : Handled (handle_raw_can env s c text)
  unfolding handle_raw_can
  handle_raw_can-IsSafe = raw_can-IsSafe env s c (parse_raw_can_fields text) x

module _ (env : Env) where
  handle_hotfire-IsSafe :
      (st : AppState) (s : App) (c : ℕ) (text : Bytes)
      → IsSafe s
      → IsSafe (handle_hotfire env st s c text)
  unfolding handle_hotfire
  handle_hotfire-IsSafe prechilling s c text x = IsSafe-send_text env s c _ x
  handle_hotfire-IsSafe hotfire s c text x =
      or_else-IsSafe _ _ (handle_drown-IsSafe env s c text x) (
        or_else-IsSafe _ _ (handle_fire-IsSafe env s c text x) (
          or_else-IsSafe _ _ (handle_raw_can-IsSafe env s c text x) (IsSafe-send_text env s c _ x)))

  handle_operation-IsSafe :
      (s : App) (c : ℕ) (text : Bytes) → IsSafe s → IsSafe (handle_operation env s c text)
  unfolding handle_operation
  handle_operation-IsSafe s c text x =
      let y = called-IsSafe s x in
      elim (Bool-cases (env.malloc_ok s.calls)) [
        | inr h ↦ rw h (IsSafe-send_text env (called s) c _ y)
        | inl h ↦ rw h (
            or_else-IsSafe _ _ (handle_wiggle_stop-IsSafe env (called s) c text y) (
              or_else-IsSafe _ _ (handle_wiggle-IsSafe env (called s) c text y)
                (handle_hotfire-IsSafe s.state (called s) c text y)))
      ]

  handle_control-IsSafe :
      (s : App) (c : ℕ) (text : Bytes) → IsSafe s → IsSafe (handle_control env s c text)
  unfolding handle_control
  handle_control-IsSafe s c text x = or_else-IsSafe _ _ (handle_abort-IsSafe env s c text x) (
      or_else-IsSafe _ _ (handle_state_command-IsSafe env s c text x) (
        or_else-IsSafe _ _ (handle_set_valve-IsSafe env s c text x)
          (handle_operation-IsSafe s c text x)))

  clients-IsSafe : (s : App) (xs : List ClientCtx) → IsSafe s → IsSafe (record s { clients = xs })
  clients-IsSafe s xs x = record {
    sound = record {
      table = x.sound.table;
      profile = x.sound.profile;
      bus = x.sound.bus;
      workers = x.sound.workers;
    };
    quiet = x.quiet;
  }

  handle_read_toggle-IsSafe :
      (s : App) (c : ℕ) (text : Bytes) → IsSafe s → Handled (handle_read_toggle env s c text)
  unfolding handle_read_toggle
  handle_read_toggle-IsSafe s c text x =
      let on = clients-IsSafe s (set_write_only c true s.clients) x in
      let off = clients-IsSafe s (set_write_only c false s.clients) x in
      ground (
        arith,
        IsSafe-send_text env _ c (lit "Write-only mode enabled") on,
        IsSafe-send_text env _ c (lit "Write-only mode disabled") off,
      )

-- In the testing mode a command is only answered.
module _ (env : Env) (s : App) (c : ℕ) (text : Bytes) where
  view-answer : (t : App) (msg : Bytes) → view t ≡ view s → view (send_text env t c msg) ≡ view s
  view-answer t msg e = view-send_text env t c msg ∙ e

  view-testing_rest : (t : App) → view t ≡ view s → view (handle_testing_rest env t c text) ≡ view s
  unfolding handle_testing_rest
  view-testing_rest t e = ground (
    arith,
    view-answer t (lit "TESTING parsed DROWN command") e,
    view-answer (called t) (testing_fire (firing_sequence_parse (env.malloc_ok t.calls) text))
        (view-called t ∙ e),
    view-answer t (testing_raw_or_invalid (parse_raw_can_fields text)) e,
  )

  view-testing_copy : view (handle_testing_copy env s c text) ≡ view s
  unfolding handle_testing_copy
  view-testing_copy = ground (
    arith,
    view-answer (called s) (lit "Server error: out of memory") (view-called s),
    view-answer (called s) (testing_wiggle_stop (count_ids (arguments text) 0)) (view-called s),
    view-answer (called s) (testing_wiggle (count_entries (arguments text) 0)) (view-called s),
    view-testing_rest (called s) (view-called s),
  )

  pub view-handle_testing_command : view (handle_testing_command env s c text) ≡ view s
  unfolding handle_testing_command
  view-handle_testing_command = ground (
    arith,
    view-answer s (lit "TESTING parsed ABORT command") refl,
    view-answer s (testing_state (drop 6 text)) refl,
    view-answer s (testing_set_valve (parse_valve (drop 9 text))) refl,
    view-testing_copy,
  )

either-IsSafe : (b : Bool) {s t : App} → IsSafe s → IsSafe t → IsSafe (if b then s else t)
either-IsSafe true x y = x
either-IsSafe false x y = y

-- Every text of a client, in every mode and state, leaves a safe server safe: the table of wiggles,
-- the valve profile, the frames on the bus, the blocks given to threads, and no wiggle in HOTFIRE.
pub command_handle_text-IsSafe :
    (env : Env) (s : App) (c : ℕ) (text : Bytes)
    → IsSafe s
    → IsSafe (command_handle_text env s c text)
unfolding command_handle_text
command_handle_text-IsSafe env s c text x =
    or_else-IsSafe _ _ (handle_read_toggle-IsSafe env s c text x) (
      either-IsSafe s.config.testing_mode
        (IsSafe-Wrote s _ (Wrote-none (view-handle_testing_command env s c (strip_can_prefix text)))
          x)
        (either-IsSafe s.config.read_only (IsSafe-send_text env s c _ x)
          (handle_control-IsSafe env s c (strip_can_prefix text) x)))
