-- ===== src/Safety/Claims/Steps.antt =====
-- src/control/command.c: what the steps of the handlers do to the threads of sequences and their flags.
use static_fire.Base.{
  Bytes, ℕ, suc, Bool, true, false, Option, none, some, List, [], ◌∷◌, refl, ◌∙◌, sym, ap,
  Bool-cases, Option-cases, inl, inr, if◌then◌else◌, ◌==◌, ◌||◌,
}
use static_fire.Text.{lit}
use static_fire.App.View.{view-called}
use static_fire.App.{
  App, AppState, prechilling, hotfire, ValveProfile, WorkerArgs, FiringConfig, Env,
}
use static_fire.Bridge.{send_text}
use static_fire.Bridge.Silent.{view-send_text, view-broadcast_text}
use static_fire.Bus.{send_command}
use static_fire.Bus.Frames.{send_command-Wrote}
use static_fire.Wiggle.Moves.{wiggle_start-Moved, wiggle_stop-Moved, wiggle_stop_all-Moved}
use static_fire.Wiggle.{wiggle_stop, wiggle_stop_all}
use static_fire.State.{state_set, leave_prechilling, state_broadcast}
use static_fire.Firing.{firing_sequence_start, start_drown, request_abort}
use static_fire.Firing.Start.{Claims, firing_sequence_start-Claims}
use static_fire.Command.Fields.{RawCan, WiggleFields, arguments, parse_stop, parse_wiggle}
use static_fire.Command.Live.{
  set_field, set_profile, set_valve, state_command, stop_all_ids, start_all, start_fields,
  wiggle_in, raw_can, raw_text, fire,
}
use static_fire.Safety.Claims.{
  Kept, Claimed, Kept-refl, Kept-trans, Claimed-Kept, Kept-Moved, Kept-Wrote, Kept-view, Handled,
  logged-Kept,
}

module _ (env : Env) where
  pub send_text-Kept : (s : App) (c : ℕ) (msg : Bytes) → Kept s (send_text env s c msg)
  send_text-Kept s c msg = Kept-view s _ (view-send_text env s c msg)

  -- A text behind what a handler has done.
  pub answer :
      {s : App} (t : App) (c : ℕ) (msg : Bytes) → Claimed s t → Claimed s (send_text env t c msg)
  answer t c msg x = Claimed-Kept x (send_text-Kept t c msg)

  pub reply : (s : App) (c : ℕ) (msg : Bytes) → Claimed s (send_text env s c msg)
  reply s c msg = inl (send_text-Kept s c msg)

  pub abort-Kept : (s : App) → Kept s (request_abort s)
  unfolding request_abort
  abort-Kept s = record { same_threads = refl; same_active = refl; abort_kept = λ _ _. refl }

  with_state-Kept : (s : App) (st : AppState) → Kept s (record s { state = st })
  with_state-Kept s st = record { same_threads = refl; same_active = refl; abort_kept = λ _ h. h }

  pub stop_all-Kept : (s : App) (exit : Bool) → Kept s (wiggle_stop_all env s exit)
  stop_all-Kept s exit = Kept-Moved s _ (wiggle_stop_all-Moved env s exit)

  leave-Kept : (st : AppState) (s : App) → Kept s (leave_prechilling env st s)
  unfolding leave_prechilling
  leave-Kept prechilling s = Kept-refl s
  leave-Kept hotfire s = stop_all-Kept s true

  state_set-Kept : (s : App) (st : AppState) → Kept s (state_set env s st).0
  unfolding state_set state_broadcast
  state_set-Kept s st = Kept-trans (with_state-Kept s st) (
      Kept-trans (leave-Kept st (record s { state = st }))
        (Kept-view _ _ (view-broadcast_text env _ _ false)))

  pub state_command-Claimed :
      (s : App) (c : ℕ) (st : AppState) (label : Bytes) → Claimed s (state_command env s c st label)
  unfolding state_command
  state_command-Claimed s c st label = answer _ c _ (inl (state_set-Kept s st))

  set_profile-Claimed :
      (s : App) (c : ℕ) (o : Option ValveProfile) → Claimed s (set_profile env s c o)
  unfolding set_profile
  set_profile-Claimed s c none = reply s c _
  set_profile-Claimed s c (some p) =
      answer (record s { valve_profile = p }) c _
        (inl (record { same_threads = refl; same_active = refl; abort_kept = λ _ h. h }))

  pub set_valve-Claimed :
      (s : App) (c : ℕ) (o : Option (Bytes × ℕ)) → Claimed s (set_valve env s c o)
  unfolding set_valve
  set_valve-Claimed s c none = reply s c _
  set_valve-Claimed s c (some (name, value)) =
      set_profile-Claimed s c (set_field s.valve_profile name value)

  pub stop_all_ids-Kept : (ts : List Bytes) (s : App) (n : ℕ) → Kept s (stop_all_ids env ts s n).0
  unfolding stop_all_ids
  stop_all_ids-Kept [] s n = Kept-refl s
  stop_all_ids-Kept (t ∷ ts) s n = elim (Option-cases (parse_stop t)) [
    | inl e ↦ rw (e, stop_all_ids) (Kept-refl s)
    | inr (id, e) ↦
        rw (e, stop_all_ids)
          (Kept-trans (Kept-Moved s _ (wiggle_stop-Moved env s id))
            (stop_all_ids-Kept ts (wiggle_stop env s id).0 _))
  ]

  start_fields-Kept : (s : App) (w : WiggleFields) → Kept s (start_fields env s w).0
  start_fields-Kept s w =
      Kept-Moved s _ (
        wiggle_start-Moved env s w.id w.start_value w.end_value w.exit_value w.period_ms w.total_ms)

  start_all-Kept : (ts : List Bytes) (s : App) (n : ℕ) → Kept s (start_all env ts s n).0
  unfolding start_all
  start_all-Kept [] s n = Kept-refl s
  start_all-Kept (t ∷ ts) s n = elim (Option-cases (parse_wiggle t)) [
    | inl e ↦ rw (e, start_all) (Kept-refl s)
    | inr (w, e) ↦
        let one = start_fields-Kept s w in
        rw (e, start_all)
          (elim (Bool-cases (start_fields env s w).1) [
            | inl h ↦ rw h (Kept-trans one (start_all-Kept ts (start_fields env s w).0 (suc n)))
            | inr h ↦ rw h one
          ])
  ]

  pub wiggle_in-Claimed :
      (st : AppState) (s : App) (c : ℕ) (command : Bytes) → Claimed s (wiggle_in env st s c command)
  unfolding wiggle_in
  wiggle_in-Claimed hotfire s c command = reply s c _
  wiggle_in-Claimed prechilling s c command =
      answer _ c _ (inl (start_all-Kept (arguments command) s 0))

  pub raw_can-Claimed : (s : App) (c : ℕ) (o : Option RawCan) → Handled s (raw_can env s c o)
  unfolding raw_can
  raw_can-Claimed s c none = tt
  raw_can-Claimed s c (some r) =
      let sent_it = send_command env s r.id r.value r.duration_ms in
      let one = Kept-Wrote s sent_it.0 (send_command-Wrote env s r.id r.value r.duration_ms) in
      elim (Bool-cases sent_it.1) [
        | inl h ↦ rw h (
            answer _ c _ (inl (Kept-trans one (logged-Kept sent_it.0 (lit "CAN_TX") (raw_text r)))))
        | inr h ↦ rw h (answer _ c _ (inl (Kept-trans one (Kept-view _ _ (view-called sent_it.0)))))
      ]

  -- What the start of a sequence claims.
  claims : (s : App) (args : WorkerArgs) (r : App × Bool) → Claims s args r → Claimed s r.0
  claims s args (t, true) x =
      let (idle, _, on, _, one) = x.0 refl in
      inr (record { new = args; one_thread = one; idle_before = idle; active_now = on })
  claims s args (t, false) (_, same, busy, idle, _) = inl (record {
    same_threads = same refl;
    same_active = elim (Bool-cases s.sequence_active) [
      | inl h ↦ ap (λ (u : App). u.sequence_active) (busy h).0
      | inr h ↦ idle h refl ∙ sym h
    ];
    abort_kept = λ h k. ap (λ (u : App). u.sequence_abort) (busy h).0 ∙ k;
  })

  start-Claimed : (s : App) (args : WorkerArgs) → Claimed s (firing_sequence_start env s args).0
  start-Claimed s args = claims s args _ (firing_sequence_start-Claims env s args)

  -- A start, answered only if it failed.
  pub answer_unless :
      {s : App} (r : App × Bool) (c : ℕ) (msg : Bytes)
      → Claimed s r.0
      → Claimed s (if r.1 then r.0 else send_text env r.0 c msg)
  answer_unless (t, true) c msg x = x
  answer_unless (t, false) c msg x = answer t c msg x

  pub start_drown-Claimed : (s : App) (c : ℕ) → Claimed s (start_drown env s c).0
  unfolding start_drown
  start_drown-Claimed s c =
      elim (Bool-cases
        (s.valve_profile.lox_main_valve_id == 0 || s.valve_profile.lox_vent_valve_id == 0)) [
          | inl h ↦ rw h (inl (Kept-refl s))
          | inr h ↦ rw h (start-Claimed s _)
        ]

  pub fire-Claimed : (s : App) (c : ℕ) (o : Option FiringConfig) → Claimed s (fire env s c o)
  unfolding fire
  fire-Claimed s c none = reply s c _
  fire-Claimed s c (some config) =
      answer_unless (firing_sequence_start env s _) c (lit "A firing sequence is already running")
        (start-Claimed s _)
