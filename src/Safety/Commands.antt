-- ===== src/Safety/Commands.antt =====
-- src/control/command.c: the safety of the server under the loops and replies of the handlers.
use static_fire.Base.{
  Bytes, ℕ, suc, Bool, true, false, not, Option, none, some, List, [], ◌∷◌, ◌≡◌, refl, ◌∙◌, sym,
  Bool-cases, Option-cases, inl, inr, if◌then◌else◌,
}
use static_fire.Text.{lit}
use static_fire.App.View.{Wrote-none, view-called}
use static_fire.App.{
  App, AppState, prechilling, hotfire, FiringConfig, Env, called, zero_slot, emit, logged,
}
use static_fire.Bridge.{send_text}
use static_fire.Bus.{send_command}
use static_fire.Bus.Frames.{send_command-Wrote}
use static_fire.Wiggle.Moves.{wiggle_start-Moved, wiggle_stop-Moved}
use static_fire.Wiggle.Slots.{All-set}
use static_fire.Wiggle.Start.{wiggle_start-Starts}
use static_fire.Wiggle.Stop.{wiggle_stop-Stops}
use static_fire.Wiggle.{wiggle_stop}
use static_fire.Firing.Parse.{firing_sequence_parse-IsBlock}
use static_fire.Firing.{firing_sequence_parse, worker_args, firing_sequence_start}
use static_fire.Command.Fields.{arguments, parse_stop, parse_wiggle, WiggleFields, RawCan}
use static_fire.Command.Live.{
  stop_all_ids, start_all, start_fields, started_message, wiggle_in, raw_can, fire,
}
use static_fire.Command.{or_else}
use static_fire.Safety.{IsSafe, IsSound-Moved, IsSafe-Wrote, state-Moved, IsWorker}
use static_fire.Safety.Handlers.{IsSafe-send_text, firing_sequence_start-IsSafe}

-- Of a handler: the state that it leaves, if it took the text, is safe.
abbrev pub Handled : Option App → Type 0
Handled none = Unit
Handled (some s) = IsSafe s

pub Handled-unless : (b : Bool) (t : App) → IsSafe t → Handled (if not b then none else some t)
Handled-unless true t x = x
Handled-unless false t x = tt

pub or_else-IsSafe : (o : Option App) (s : App) → Handled o → IsSafe s → IsSafe (or_else o s)
or_else-IsSafe none s h x = x
or_else-IsSafe (some t) s h x = h

pub called-IsSafe : (s : App) → IsSafe s → IsSafe (called s)
called-IsSafe s x = IsSafe-Wrote s (called s) (Wrote-none (view-called s)) x

pub emit-IsSafe : {kind text : Bytes} (s : App) → IsSafe s → IsSafe (emit (logged kind text) s)
emit-IsSafe s x = record {
  sound = record {
    table = x.sound.table;
    profile = x.sound.profile;
    bus = x.sound.bus;
    workers = x.sound.workers;
  };
  quiet = x.quiet;
}

module _ (env : Env) where
  pub wiggle_stop-IsSafe : (s : App) (id : ℕ) → IsSafe s → IsSafe (wiggle_stop env s id).0
  wiggle_stop-IsSafe s id x =
      let m = wiggle_stop-Moved env s id in
      let (t, _, same, put) = wiggle_stop-Stops env s id x.sound.table in
      record {
        sound = IsSound-Moved s _ m t x.sound;
        quiet = λ h.
            let idle = x.quiet (sym (state-Moved s _ m) ∙ h) in
            elim (Bool-cases (wiggle_stop env s id).1) [
              | inr k ↦ rw (same k).0 idle
              | inl k ↦
                  rw (put k).3 (All-set (λ w. w.active ≡ false) s.wiggles _ zero_slot idle refl)
            ];
      }

  pub stop_all_ids-IsSafe :
      (ts : List Bytes) (s : App) (n : ℕ) → IsSafe s → IsSafe (stop_all_ids env ts s n).0
  unfolding stop_all_ids
  stop_all_ids-IsSafe [] s n x = x
  stop_all_ids-IsSafe (t ∷ ts) s n x = elim (Option-cases (parse_stop t)) [
    | inl e ↦ rw (e, stop_all_ids) x
    | inr (id, e) ↦
        rw (e, stop_all_ids)
          (stop_all_ids-IsSafe ts (wiggle_stop env s id).0 _ (wiggle_stop-IsSafe s id x))
  ]

  -- While prechilling a table is all that is asked of the slots.
  pub start_fields-IsSafe :
      (s : App) (w : WiggleFields)
      → s.state ≡ prechilling
      → IsSafe s
      → IsSafe (start_fields env s w).0 × ((start_fields env s w).0.state ≡ prechilling)
  start_fields-IsSafe s w p x =
      let m =
        wiggle_start-Moved env s w.id w.start_value w.end_value w.exit_value w.period_ms
          w.total_ms in
      let t =
        wiggle_start-Starts env s w.id w.start_value w.end_value w.exit_value w.period_ms w.total_ms
          x.sound.table in
      let same = state-Moved s _ m ∙ p in
      (record { sound = IsSound-Moved s _ m t.0 x.sound; quiet = λ h. absurd (cc (same, h)) }, same)

  start_all-IsSafe :
      (ts : List Bytes) (s : App) (n : ℕ)
      → s.state ≡ prechilling
      → IsSafe s
      → IsSafe (start_all env ts s n).0
  unfolding start_all
  start_all-IsSafe [] s n p x = x
  start_all-IsSafe (t ∷ ts) s n p x = elim (Option-cases (parse_wiggle t)) [
    | inl e ↦ rw (e, start_all) x
    | inr (w, e) ↦
        let (safe, same) = start_fields-IsSafe s w p x in
        rw (e, start_all)
          (elim (Bool-cases (start_fields env s w).1) [
            | inl h ↦ rw h (start_all-IsSafe ts (start_fields env s w).0 (suc n) same safe)
            | inr h ↦ rw h safe
          ])
  ]

  pub wiggle_in-IsSafe :
      (st : AppState) (s : App) (c : ℕ) (command : Bytes)
      → s.state ≡ st
      → IsSafe s
      → IsSafe (wiggle_in env st s c command)
  unfolding wiggle_in
  wiggle_in-IsSafe hotfire s c command e x = IsSafe-send_text env s c _ x
  wiggle_in-IsSafe prechilling s c command e x =
      IsSafe-send_text env _ c _ (start_all-IsSafe (arguments command) s 0 e x)

  -- A reply that is sent only if the step failed.
  pub reply_unless-IsSafe :
      (r : App × Bool) (c : ℕ) (msg : Bytes)
      → IsSafe r.0
      → IsSafe (if r.1 then r.0 else send_text env r.0 c msg)
  reply_unless-IsSafe (s, true) c msg x = x
  reply_unless-IsSafe (s, false) c msg x = IsSafe-send_text env s c msg x

  pub fire-IsSafe :
      (s : App) (c : ℕ) (ok : Bool) (text : Bytes)
      → IsSafe s
      → IsSafe (fire env s c (firing_sequence_parse ok text))
  fire-IsSafe s c ok text x = go (firing_sequence_parse ok text) refl
    where
      worker :
          (config : FiringConfig) (a b d : Bytes)
          → firing_sequence_parse ok text ≡ some config
          → IsWorker (worker_args c config a b d)
      worker config a b d e =
          let (blocks, some_block, _) = firing_sequence_parse-IsBlock ok text e in
          unfold worker_args in
          record { blocks = blocks.0; some_block = some_block; at_most = blocks.1 }

      go : (o : Option FiringConfig) → firing_sequence_parse ok text ≡ o → IsSafe (fire env s c o)
      go none e = unfold fire in IsSafe-send_text env s c _ x
      go (some config) e =
          let args =
            worker_args c config (started_message config) (lit "Firing sequence completed")
              (lit "Firing sequence failed to start") in
          let safe = firing_sequence_start-IsSafe env s args (λ _. worker config _ _ _ e) x in
          unfold fire in
          reply_unless-IsSafe (firing_sequence_start env s args) c
            (lit "A firing sequence is already running") safe

  pub raw_can-IsSafe :
      (s : App) (c : ℕ) (o : Option RawCan) → IsSafe s → Handled (raw_can env s c o)
  unfolding raw_can
  raw_can-IsSafe s c none x = tt
  raw_can-IsSafe s c (some r) x =
      let sent_it = send_command env s r.id r.value r.duration_ms in
      let safe = IsSafe-Wrote s sent_it.0 (send_command-Wrote env s r.id r.value r.duration_ms) x in
      elim (Bool-cases sent_it.1) [
        | inl h ↦ rw h (IsSafe-send_text env _ c _ (emit-IsSafe sent_it.0 safe))
        | inr h ↦ rw h (IsSafe-send_text env _ c _ (called-IsSafe sent_it.0 safe))
      ]
