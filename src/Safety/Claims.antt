-- ===== src/Safety/Claims.antt =====
-- src/control/command.c: what a step may do to the threads of sequences and their flags.
pub mod Steps
use static_fire.Base.{
  Bytes, ℕ, suc, Bool, true, false, not, Option, none, some, List, [], ◌∷◌, ◌≡◌, refl, ◌∙◌, sym, ap,
  Bool-cases, Option-cases, ◌⊎◌, inl, inr, if◌then◌else◌, ◌==◌, ◌||◌,
}
use static_fire.Text.{lit}
use static_fire.App.View.{View, view, Wrote, Moved, view-called}
use static_fire.App.{
  App, AppState, prechilling, hotfire, ValveProfile, WorkerArgs, FiringConfig, Env, called, threads,
  emit, logged,
}
use static_fire.Bridge.{send_text}
use static_fire.Bridge.Silent.{view-send_text, view-broadcast_text}
use static_fire.Bus.{send_command}
use static_fire.Bus.Frames.{send_command-Wrote}
use static_fire.Wiggle.Moves.{wiggle_start-Moved, wiggle_stop-Moved, wiggle_stop_all-Moved}
use static_fire.Wiggle.{wiggle_stop, wiggle_stop_all}
use static_fire.State.{state_set, leave_prechilling, state_broadcast}
use static_fire.Firing.{firing_sequence_start, start_drown, request_abort}
use static_fire.Firing.Start.{Claims, firing_sequence_start-Claims}
use static_fire.Command.Fields.{RawCan, WiggleFields, arguments, parse_stop, parse_wiggle}
use static_fire.Command.Live.{
  set_field, set_profile, set_valve, state_command, stop_all_ids, start_all, start_fields,
  wiggle_in, raw_can, raw_text, fire,
}
use static_fire.Command.{or_else}

-- No thread is created, the active flag is the old one, and an abort of a running sequence is kept.
pub record Kept (s t : App) : Type 0 where
  pub same_threads : threads t.events ≡ threads s.events
  pub same_active : t.sequence_active ≡ s.sequence_active
  pub abort_kept : s.sequence_active ≡ true → s.sequence_abort ≡ true → t.sequence_abort ≡ true

-- One thread is created; no sequence was active, and one is now.
pub record Started (s t : App) : Type 0 where
  pub new : WorkerArgs
  pub one_thread : threads t.events ≡ new ∷ threads s.events
  pub idle_before : s.sequence_active ≡ false
  pub active_now : t.sequence_active ≡ true

abbrev pub Claimed : App → App → Type 0
Claimed s t = Kept s t ⊎ Started s t

pub Kept-refl : (s : App) → Kept s s
Kept-refl s = record { same_threads = refl; same_active = refl; abort_kept = λ _ h. h }

pub Kept-trans : {s t u : App} → Kept s t → Kept t u → Kept s u
Kept-trans a b = record {
  same_threads = b.same_threads ∙ a.same_threads;
  same_active = b.same_active ∙ a.same_active;
  abort_kept = λ h k. b.abort_kept (a.same_active ∙ h) (a.abort_kept h k);
}

pub Claimed-Kept : {s t u : App} → Claimed s t → Kept t u → Claimed s u
Claimed-Kept (inl a) b = inl (Kept-trans a b)
Claimed-Kept (inr a) b = inr (record {
  new = a.new;
  one_thread = b.same_threads ∙ a.one_thread;
  idle_before = a.idle_before;
  active_now = b.same_active ∙ a.active_now;
})

pub Kept-Claimed : {s t u : App} → Kept s t → Claimed t u → Claimed s u
Kept-Claimed a (inl b) = inl (Kept-trans a b)
Kept-Claimed a (inr b) = inr (record {
  new = b.new;
  one_thread = b.one_thread ∙ ap (λ l. b.new ∷ l) a.same_threads;
  idle_before = sym a.same_active ∙ b.idle_before;
  active_now = b.active_now;
})

pub Kept-Moved : (s t : App) → Moved (view s) (view t) → Kept s t
unfolding view
Kept-Moved s t m = record {
  same_threads = ap (λ (v : View). v.running) m.after;
  same_active = ap (λ (v : View). v.sequence_active) m.after;
  abort_kept = λ _ h. ap (λ (v : View). v.sequence_abort) m.after ∙ h;
}

pub Kept-Wrote : (s t : App) → Wrote (view s) (view t) → Kept s t
unfolding view
Kept-Wrote s t m = record {
  same_threads = ap (λ (v : View). v.running) m.after;
  same_active = ap (λ (v : View). v.sequence_active) m.after;
  abort_kept = λ _ h. ap (λ (v : View). v.sequence_abort) m.after ∙ h;
}

pub Kept-view : (s t : App) → view t ≡ view s → Kept s t
unfolding view
Kept-view s t e = record {
  same_threads = ap (λ (v : View). v.running) e;
  same_active = ap (λ (v : View). v.sequence_active) e;
  abort_kept = λ _ h. ap (λ (v : View). v.sequence_abort) e ∙ h;
}

-- Of a handler: the state that it leaves, if it took the text.
abbrev pub Handled : App → Option App → Type 0
Handled s none = Unit
Handled s (some t) = Claimed s t

pub Handled-unless :
    (b : Bool) (s t : App) → Claimed s t → Handled s (if not b then none else some t)
Handled-unless true s t x = x
Handled-unless false s t x = tt

pub or_else-Claimed :
    {s : App} (o : Option App) (t : App) → Handled s o → Claimed s t → Claimed s (or_else o t)
or_else-Claimed none t h x = x
or_else-Claimed (some u) t h x = h

pub logged-Kept : (s : App) (kind text : Bytes) → Kept s (emit (logged kind text) s)
logged-Kept s kind text = record { same_threads = refl; same_active = refl; abort_kept = λ _ h. h }

pub called-Kept : (s : App) → Kept s (called s)
called-Kept s = Kept-view s _ (view-called s)
