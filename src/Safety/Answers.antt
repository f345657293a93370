-- ===== src/Safety/Answers.antt =====
-- src/control/command.c: what only answers a client: the testing mode, and a refusal.
use static_fire.Base.{
  Bytes, ℕ, Bool, true, false, List, [], ◌∷◌, ◌++◌, append_assoc, All, All-append, ◌≡◌, refl, ◌∙◌,
  sym, ap, arith, drop, not, if◌then◌else◌,
}
use static_fire.Text.{lit}
use static_fire.App.{App, Event, can_write, sent, pong, logged, spawned, Env, called}
use static_fire.Bridge.{send_text, is_open}
use static_fire.Command.Fields.{arguments, parse_raw_can_fields, parse_valve}
use static_fire.Command.Testing.{
  handle_testing_command, handle_testing_copy, handle_testing_rest, testing_fire,
  testing_raw_or_invalid, testing_wiggle_stop, testing_wiggle, testing_state, testing_set_valve,
  count_ids, count_entries,
}
use static_fire.Firing.{firing_sequence_parse}

-- A text that is sent to this client.
abbrev pub IsAnswer : ℕ → Event → Type 0
IsAnswer c (sent d msg) = d ≡ c
IsAnswer c (can_write frame ok) = ⊥
IsAnswer c (pong d) = ⊥
IsAnswer c (logged kind text) = ⊥
IsAnswer c (spawned args) = ⊥

-- Nothing is done but calls whose result comes from outside, and texts to one client: all else of the
-- server is as it was.
pub record Answered (c : ℕ) (s t : App) : Type 0 where
  pub new : List Event
  pub answers : All (IsAnswer c) new
  pub same : t ≡ record s { calls = t.calls; events = new ++ s.events }

module _ (c : ℕ) where
  pub Answered-refl : (s : App) → Answered c s s
  Answered-refl s = record { new = []; answers = tt; same = refl }

  Answered-trans : (s t u : App) → Answered c s t → Answered c t u → Answered c s u
  Answered-trans s t u x y = record {
    new = y.new ++ x.new;
    answers = All-append (IsAnswer c) y.new x.new y.answers x.answers;
    same =
        y.same
        ∙ ap (λ (r : App). record r { calls = u.calls; events = y.new ++ r.events }) x.same
        ∙ ap (λ (l : List Event). record s { calls = u.calls; events = l })
            (sym (append_assoc y.new x.new s.events));
  }

  called-Answered : (s : App) → Answered c s (called s)
  called-Answered s = record { new = []; answers = tt; same = refl }

  either-Answered :
      (b : Bool) (s t u : App) → Answered c s t → Answered c s u → Answered c s (if b then t else u)
  either-Answered true s t u x y = x
  either-Answered false s t u x y = y

module _ (env : Env) (c : ℕ) where
  pub send_text-Answered : (s : App) (msg : Bytes) → Answered c s (send_text env s c msg)
  unfolding send_text
  send_text-Answered s msg = either-Answered c (not s.ws) s _ _ (Answered-refl c s) (
      either-Answered c (is_open env s c) s _ _
        (record { new = sent c msg ∷ []; answers = (refl, tt); same = refl }) (called-Answered c s))

  after_call : (s : App) (msg : Bytes) → Answered c s (send_text env (called s) c msg)
  after_call s msg =
      Answered-trans c s _ _ (called-Answered c s) (send_text-Answered (called s) msg)

  rest-Answered : (s : App) (text : Bytes) → Answered c s (handle_testing_rest env s c text)
  unfolding handle_testing_rest
  rest-Answered s text = ground (
    arith,
    send_text-Answered s (lit "TESTING parsed DROWN command"),
    after_call s (testing_fire (firing_sequence_parse (env.malloc_ok s.calls) text)),
    send_text-Answered s (testing_raw_or_invalid (parse_raw_can_fields text)),
  )

  copy-Answered : (s : App) (text : Bytes) → Answered c s (handle_testing_copy env s c text)
  unfolding handle_testing_copy
  copy-Answered s text = ground (
    arith,
    after_call s (lit "Server error: out of memory"),
    after_call s (testing_wiggle_stop (count_ids (arguments text) 0)),
    after_call s (testing_wiggle (count_entries (arguments text) 0)),
    Answered-trans c s _ _ (called-Answered c s) (rest-Answered (called s) text),
  )

  pub testing-Answered :
      (s : App) (text : Bytes) → Answered c s (handle_testing_command env s c text)
  unfolding handle_testing_command
  testing-Answered s text = ground (
    arith,
    send_text-Answered s (lit "TESTING parsed ABORT command"),
    send_text-Answered s (testing_state (drop 6 text)),
    send_text-Answered s (testing_set_valve (parse_valve (drop 9 text))),
    copy-Answered s text,
  )
