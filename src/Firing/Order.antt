-- ===== src/Firing/Order.antt =====
-- src/control/firing_sequence.c: what the thread of a firing sequence puts on the bus, however it ends.
use static_fire.Base.{
  ℕ, zero, suc, ◌≤◌, ◌<◌, Bool, true, false, Option, none, some, List, [], ◌∷◌, ◌≡◌, ◌≢◌, refl, ap,
  ◌∙◌, sym, arith, length, take, Bool-cases, Option-cases, inl, inr, if◌then◌else◌,
}
use static_fire.App.View.{View, view}
use static_fire.App.{App, CanFrame, FiringBlock, WorkerArgs, Env, frames, called}
use static_fire.Bridge.{send_text}
use static_fire.Bridge.Silent.{view-send_text}
use static_fire.Bus.{send_command, command_frame}
use static_fire.Bus.Frames.{send_command-frames}
use static_fire.Firing.{finish_sequence}
use static_fire.Firing.Worker.{
  Ending, completed, aborted, failed, wait_until, wait_with_abort, try_send, send_block, run_blocks,
  ended, last_message, sequence_worker, pre_delay, send_attempts,
}

abbrev pub frame_of : FiringBlock → CanFrame
frame_of b = command_frame b.id b.value b.duration_ms

-- The bus, newest first, when the blocks have gone out in order.
abbrev pub sent_onto : List FiringBlock → List CanFrame → List CanFrame
sent_onto [] fs = fs
sent_onto (b ∷ bs) fs = sent_onto bs (frame_of b ∷ fs)

module _ (env : Env) where
  try_send-frames :
      (n : ℕ) (b : FiringBlock) (s : App)
      → frames (try_send env n b s).1.events
        ≡ (if (try_send env n b s).0 then frame_of b ∷ frames s.events else frames s.events)
  unfolding try_send
  try_send-frames zero b s = refl
  try_send-frames (suc n) b s =
      let first = send_command env s b.id b.value b.duration_ms in
      ground
        (arith, send_command-frames env s b.id b.value b.duration_ms, try_send-frames n b first.0)

  send_block-frames :
      (b : FiringBlock) (s : App)
      → frames (send_block env b s).1.events
        ≡ (if (send_block env b s).0 then frame_of b ∷ frames s.events else frames s.events)
  unfolding send_block
  send_block-frames b s = try_send-frames send_attempts b s

module _ (env : Env) (interrupted : ℕ → Bool) where
  wait_until-frames :
      (fuel deadline : ℕ) (s : App) {go_on : Bool} {t : App}
      → wait_until env interrupted fuel deadline s ≡ some (go_on, t)
      → t.events ≡ s.events
  unfolding wait_until
  wait_until-frames zero deadline s e = cc
  wait_until-frames (suc fuel) deadline s {go_on} {t} e =
      ground (arith, wait_until-frames fuel deadline (called (called s)) {go_on = go_on} {t = t})

  wait_with_abort-frames :
      (fuel delay_ms : ℕ) (s : App) {go_on : Bool} {t : App}
      → wait_with_abort env interrupted fuel delay_ms s ≡ some (go_on, t)
      → t.events ≡ s.events
  unfolding wait_with_abort
  wait_with_abort-frames fuel delay_ms s e = wait_until-frames fuel _ (called s) e

  -- The blocks that have gone out are the first `count`: all of them if the sequence completed, and
  -- not all if it did not.
  pub record Progress (bs : List FiringBlock) (s : App) (e : Ending) (t : App) : Type 0 where
    pub count : ℕ
    pub within : count ≤ length bs
    pub bus : frames t.events ≡ sent_onto (take count bs) (frames s.events)
    pub whole : e ≡ completed → count ≡ length bs
    pub part : e ≢ completed → count < length bs

  Progress-none :
      (b : FiringBlock) (bs : List FiringBlock) (s t : App) (e : Ending)
      → e ≢ completed
      → frames t.events ≡ frames s.events
      → Progress (b ∷ bs) s e t
  Progress-none b bs s t e ne same = record {
    count = 0;
    within = omega arith;
    bus = same;
    whole = λ c. absurd (ne c);
    part = λ _. omega arith;
  }

  Progress-cons :
      (b : FiringBlock) (bs : List FiringBlock) (s u t : App) (e : Ending)
      → frames u.events ≡ frame_of b ∷ frames s.events
      → Progress bs u e t
      → Progress (b ∷ bs) s e t
  Progress-cons b bs s u t e sent_one p = record {
    count = suc p.count;
    within = omega (arith, p.within);
    bus = p.bus ∙ ap (sent_onto (take p.count bs)) sent_one;
    whole = λ c. ap suc (p.whole c);
    part = λ c. omega (arith, p.part c);
  }

  -- One block, behind its wait.
  block-Progress :
      (fuel : ℕ) (go_on : Bool) (b : FiringBlock) (bs : List FiringBlock) (s u : App) {e : Ending}
      {t : App}
      → u.events ≡ s.events
      → let sent_it = send_block env b u in
        let rest = run_blocks env interrupted fuel b.wait_ms bs sent_it.1 in
        (if go_on
            then (if sent_it.0 then rest else some (failed, sent_it.1))
            else some (aborted, u))
          ≡ some (e, t)
        → (rest ≡ some (e, t) → Progress bs sent_it.1 e t)
        → Progress (b ∷ bs) s e t
  block-Progress fuel false b bs s u {e} {t} same h ih =
      let e' : aborted ≡ e = ground arith in
      Progress-none b bs s t e (λ c. absurd (cc (e', c))) (ground arith)
  block-Progress fuel true b bs s u {e} {t} same h ih =
      let bus = send_block-frames env b u in
      elim (Bool-cases (send_block env b u).0) [
        | inl k ↦ Progress-cons b bs s (send_block env b u).1 t e (ground arith) (ih (rw k at h))
        | inr k ↦
            let e' : failed ≡ e = ground arith in
            Progress-none b bs s t e (λ c. absurd (cc (e', c))) (ground arith)
      ]

  run_blocks-Progress :
      (fuel delay_ms : ℕ) (bs : List FiringBlock) (s : App) {e : Ending} {t : App}
      → run_blocks env interrupted fuel delay_ms bs s ≡ some (e, t)
      → Progress bs s e t
  unfolding run_blocks
  run_blocks-Progress fuel delay_ms [] s {e} {t} h = record {
    count = 0;
    within = omega arith;
    bus = ground arith;
    whole = λ c. refl;
    part = λ c. let e' : completed ≡ e = ground arith in absurd (c (sym e'));
  }
  run_blocks-Progress fuel delay_ms (b ∷ bs) s {e} {t} h =
      elim (Option-cases (wait_with_abort env interrupted fuel delay_ms s)) [
        | inl w ↦ absurd (cc (rw (w, run_blocks) at h))
        | inr ((go_on, u), w) ↦
            block-Progress fuel go_on b bs s u (wait_with_abort-frames fuel delay_ms s w)
              (rw (w, run_blocks) at h)
              (λ k. run_blocks-Progress fuel b.wait_ms bs (send_block env b u).1 k)
      ]

  frames-view : (s t : App) → view s ≡ view t → frames s.events ≡ frames t.events
  unfolding view
  frames-view s t e = ap (λ (v : View). v.on_bus) e

  Progress-frames :
      (bs : List FiringBlock) (s s' t t' : App) (e : Ending)
      → frames s'.events ≡ frames s.events
      → frames t'.events ≡ frames t.events
      → Progress bs s e t
      → Progress bs s' e t'
  Progress-frames bs s s' t t' e p q x = record {
    count = x.count;
    within = x.within;
    bus = q ∙ x.bus ∙ ap (sent_onto (take x.count bs)) (sym p);
    whole = x.whole;
    part = x.part;
  }

  ended-some :
      (args : WorkerArgs) (o : Option (Ending × App)) {e : Ending} {t : App}
      → ended env args o ≡ some (e, t)
      → (u : App) × (o ≡ some (e, u))
        × (frames t.events ≡ frames u.events)
        × (t.sequence_active ≡ false)
        × (t.sequence_abort ≡ false)
  unfolding ended finish_sequence
  ended-some args none h = cc
  ended-some args (some (d, u)) {e} {t} h =
      let sent_text = frames-view _ u (view-send_text env u args.client (last_message d args)) in
      (u, ground arith, ground arith, ground arith, ground arith)

  -- Whatever is read of the abort flag, a thread that ends has put the first blocks of its sequence on
  -- the bus, in order and each once: all of them exactly if it completed. Both flags of the sequence
  -- are clear then.
  pub sequence_worker-Progress :
      (fuel : ℕ) (args : WorkerArgs) (s : App) {e : Ending} {t : App}
      → sequence_worker env interrupted fuel args s ≡ some (e, t)
      → Progress args.config.blocks s e t × (t.sequence_active ≡ false) × (t.sequence_abort ≡ false)
  unfolding sequence_worker
  sequence_worker-Progress fuel args s {e} {t} h =
      let begun = send_text env s args.client args.started_message in
      let delay = pre_delay args.config in
      let (u, ran, same, idle, clear) =
        ended-some args (run_blocks env interrupted fuel delay args.config.blocks begun) h in
      let p = run_blocks-Progress fuel delay args.config.blocks begun ran in
      let q = frames-view begun s (view-send_text env s args.client args.started_message) in
      (Progress-frames args.config.blocks begun s u t e (sym q) same p, idle, clear)
