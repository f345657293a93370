-- ===== src/Safety/Prechilling.antt =====
-- src/control/command.c: what is kept back while the system prechills.
use static_fire.Base.{
  Bytes, ℕ, suc, Bool, true, false, not, Option, none, some, List, [], ◌∷◌, ◌≡◌, refl, ◌∙◌, arith,
  drop, Bool-cases, Option-cases, inl, inr, if◌then◌else◌,
}
use static_fire.Text.{lit, equal, starts_with}
use static_fire.App.{
  App, AppState, prechilling, hotfire, ValveProfile, WorkerArgs, Env, called, threads,
}
use static_fire.Bridge.{send_text, set_write_only}
use static_fire.Bridge.Silent.{view-send_text}
use static_fire.Wiggle.Moves.{wiggle_start-Moved, wiggle_stop-Moved, wiggle_stop_all-Moved}
use static_fire.Wiggle.{wiggle_stop}
use static_fire.Firing.{request_abort}
use static_fire.Command.Fields.{arguments, is_wiggle, parse_valve, parse_stop, parse_wiggle}
use static_fire.Command.Live.{
  set_profile, set_valve, set_field, state_command, stop_all_ids, start_all, start_fields,
  wiggle_in, handle_abort, handle_state_command, handle_set_valve, handle_wiggle_stop,
  handle_wiggle,
}
use static_fire.Command.{
  handle_read_toggle, handle_hotfire, handle_operation, handle_control, command_handle_text,
  or_else, strip_can_prefix,
}
use static_fire.Safety.Dispatch.{view-handle_testing_command}
use static_fire.Safety.Gate.{running-view, running-Moved, state_set-running}

module _ (env : Env) where
  -- No thread is created by a handler that took the text.
  Idling : App → Option App → Type 0
  Idling s none = Unit
  Idling s (some t) = threads t.events ≡ threads s.events

  answer-running :
      (t : App) (c : ℕ) (msg : Bytes) {l : List WorkerArgs}
      → threads t.events ≡ l
      → threads (send_text env t c msg).events ≡ l
  answer-running t c msg e = running-view t _ (view-send_text env t c msg) ∙ e

  Idling-unless :
      (b : Bool) (s t : App)
      → threads t.events ≡ threads s.events
      → Idling s (if not b then none else some t)
  unfolding Idling
  Idling-unless true s t e = e
  Idling-unless false s t e = tt

  or_else-running :
      (s : App) (o : Option App) (t : App)
      → Idling s o
      → threads t.events ≡ threads s.events
      → threads (or_else o t).events ≡ threads s.events
  unfolding Idling
  or_else-running s none t h x = x
  or_else-running s (some u) t h x = h

  stop_all_ids-running :
      (ts : List Bytes) (s : App) (n : ℕ)
      → threads (stop_all_ids env ts s n).0.events ≡ threads s.events
  unfolding stop_all_ids
  stop_all_ids-running [] s n = refl
  stop_all_ids-running (t ∷ ts) s n = elim (Option-cases (parse_stop t)) [
    | inl e ↦ rw (e, stop_all_ids) refl
    | inr (id, e) ↦
        rw (e, stop_all_ids)
          (stop_all_ids-running ts (wiggle_stop env s id).0 _
            ∙ running-Moved s _ (wiggle_stop-Moved env s id))
  ]

  start_all-running :
      (ts : List Bytes) (s : App) (n : ℕ)
      → threads (start_all env ts s n).0.events ≡ threads s.events
  unfolding start_all
  start_all-running [] s n = refl
  start_all-running (t ∷ ts) s n = elim (Option-cases (parse_wiggle t)) [
    | inl e ↦ rw (e, start_all) refl
    | inr (w, e) ↦
        let same = running-Moved s (start_fields env s w).0 (
          wiggle_start-Moved env s w.id w.start_value w.end_value w.exit_value w.period_ms
            w.total_ms) in
        rw (e, start_all)
          (elim (Bool-cases (start_fields env s w).1) [
            | inl h ↦ rw h (start_all-running ts (start_fields env s w).0 (suc n) ∙ same)
            | inr h ↦ rw h same
          ])
  ]

  wiggle_in-running :
      (st : AppState) (s : App) (c : ℕ) (command : Bytes)
      → threads (wiggle_in env st s c command).events ≡ threads s.events
  unfolding wiggle_in
  wiggle_in-running hotfire s c command = answer-running s c _ refl
  wiggle_in-running prechilling s c command =
      answer-running _ c _ (start_all-running (arguments command) s 0)

  set_profile-running :
      (s : App) (c : ℕ) (o : Option ValveProfile)
      → threads (set_profile env s c o).events ≡ threads s.events
  unfolding set_profile
  set_profile-running s c none = answer-running s c _ refl
  set_profile-running s c (some p) = answer-running (record s { valve_profile = p }) c _ refl

  set_valve-running :
      (s : App) (c : ℕ) (o : Option (Bytes × ℕ))
      → threads (set_valve env s c o).events ≡ threads s.events
  unfolding set_valve
  set_valve-running s c none = answer-running s c _ refl
  set_valve-running s c (some (name, value)) =
      set_profile-running s c (set_field s.valve_profile name value)

  state_command-running :
      (s : App) (c : ℕ) (st : AppState) (label : Bytes)
      → threads (state_command env s c st label).events ≡ threads s.events
  unfolding state_command
  state_command-running s c st label = answer-running _ c _ (state_set-running env s st)

  handle_state_command-running :
      (s : App) (c : ℕ) (text : Bytes) → Idling s (handle_state_command env s c text)
  unfolding handle_state_command Idling
  handle_state_command-running s c text = ground (
    arith,
    state_command-running s c prechilling (lit "PRECHILLING"),
    state_command-running s c hotfire (lit "HOTFIRE"),
    answer-running s c (lit "Unknown state requested") refl,
  )

  handle_abort-running : (s : App) (c : ℕ) (text : Bytes) → Idling s (handle_abort env s c text)
  unfolding handle_abort
  handle_abort-running s c text = Idling-unless (equal text (lit "ABORT#8765")) s _ (
      answer-running _ c _ (
        running-Moved (request_abort s) _ (wiggle_stop_all-Moved env (request_abort s) true)
        ∙ unfold request_abort in refl))

  handle_set_valve-running :
      (s : App) (c : ℕ) (text : Bytes) → Idling s (handle_set_valve env s c text)
  unfolding handle_set_valve
  handle_set_valve-running s c text =
      Idling-unless (starts_with (lit "SET_VALVE") text) s _
        (set_valve-running s c (parse_valve (drop 9 text)))

  handle_wiggle_stop-running :
      (s : App) (c : ℕ) (text : Bytes) → Idling s (handle_wiggle_stop env s c text)
  unfolding handle_wiggle_stop
  handle_wiggle_stop-running s c text =
      Idling-unless (starts_with (lit "WIGGLE_STOP") text) s _
        (answer-running _ c _ (stop_all_ids-running (arguments text) s 0))

  handle_wiggle-running : (s : App) (c : ℕ) (text : Bytes) → Idling s (handle_wiggle env s c text)
  unfolding handle_wiggle
  handle_wiggle-running s c text =
      Idling-unless (is_wiggle text) s _ (wiggle_in-running s.state s c text)

  handle_hotfire-running :
      (st : AppState) (s : App) (c : ℕ) (text : Bytes)
      → st ≡ prechilling
      → threads (handle_hotfire env st s c text).events ≡ threads s.events
  unfolding handle_hotfire
  handle_hotfire-running prechilling s c text p = answer-running s c _ refl
  handle_hotfire-running hotfire s c text p = absurd (cc p)

  handle_operation-running :
      (s : App) (c : ℕ) (text : Bytes)
      → s.state ≡ prechilling
      → threads (handle_operation env s c text).events ≡ threads s.events
  unfolding handle_operation
  handle_operation-running s c text p = elim (Bool-cases (env.malloc_ok s.calls)) [
    | inr h ↦ rw h (answer-running (called s) c _ refl)
    | inl h ↦ rw h (
        or_else-running (called s) _ _ (handle_wiggle_stop-running (called s) c text) (
          or_else-running (called s) _ _ (handle_wiggle-running (called s) c text)
            (handle_hotfire-running s.state (called s) c text p)))
  ]

  handle_control-running :
      (s : App) (c : ℕ) (text : Bytes)
      → s.state ≡ prechilling
      → threads (handle_control env s c text).events ≡ threads s.events
  unfolding handle_control
  handle_control-running s c text p = or_else-running s _ _ (handle_abort-running s c text) (
      or_else-running s _ _ (handle_state_command-running s c text) (
        or_else-running s _ _ (handle_set_valve-running s c text)
          (handle_operation-running s c text p)))

  handle_read_toggle-running :
      (s : App) (c : ℕ) (text : Bytes) → Idling s (handle_read_toggle env s c text)
  unfolding handle_read_toggle Idling
  handle_read_toggle-running s c text = ground (
    arith,
    answer-running (record s { clients = set_write_only c true s.clients }) c
        (lit "Write-only mode enabled") refl,
    answer-running (record s { clients = set_write_only c false s.clients }) c
        (lit "Write-only mode disabled") refl,
  )

  modes-running :
      (a b : Bool) (t u v : App) {l : List WorkerArgs}
      → threads t.events ≡ l
      → threads u.events ≡ l
      → threads v.events ≡ l
      → threads (if a then t else if b then u else v).events ≡ l
  modes-running true b t u v x y z = x
  modes-running false true t u v x y z = y
  modes-running false false t u v x y z = z

  -- While the system prechills no text of a client creates the thread of a sequence, in any mode: not
  -- FIRE, not DROWN, and not the command that leaves the state.
  pub command_handle_text-prechilling :
      (s : App) (c : ℕ) (text : Bytes)
      → s.state ≡ prechilling
      → threads (command_handle_text env s c text).events ≡ threads s.events
  unfolding command_handle_text
  command_handle_text-prechilling s c text p =
      let rest = strip_can_prefix text in
      or_else-running s _ _ (handle_read_toggle-running s c text) (
        modes-running s.config.testing_mode s.config.read_only _ _ _
          (running-view s _ (view-handle_testing_command env s c rest)) (answer-running s c _ refl)
          (handle_control-running s c rest p))
