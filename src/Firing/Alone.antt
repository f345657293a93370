-- ===== src/Firing/Alone.antt =====
-- src/control/firing_sequence.c: the thread, step by step, without other threads between its steps.
use static_fire.Base.{
  ℕ, zero, suc, ◌+◌, ◌%◌, ◌^◌, Bool, true, false, ◌||◌, none, some, List, [], ◌∷◌, ◌≡◌, refl, ◌∙◌,
  sym, ap, ltb, ◌<◌, All, Bool-cases, Option-cases, subst, inl, inr,
}
use static_fire.App.View.{View, view}
use static_fire.App.{App, FiringBlock, WorkerArgs, Env, called}
use static_fire.Firing.Waits.{IsClock, sequence_worker_total}
use static_fire.Bridge.{send_text}
use static_fire.Bridge.Silent.{view-send_text}
use static_fire.Bus.{send_command}
use static_fire.Bus.Frames.{send_command-Wrote}
use static_fire.Firing.{finish_sequence}
use static_fire.Firing.Thread.{Phase, starting, waiting, sending, ending, next_block, thread_step}
use static_fire.Firing.Worker.{
  Ending, completed, aborted, failed, last_message, pre_delay, send_attempts, try_send, send_block,
  wait_until, wait_with_abort, run_blocks, ended, sequence_worker,
}

module _ (env : Env) (stop : ℕ → Bool) (args : WorkerArgs) where
  -- From here the thread, alone, ends and leaves the state `u`.
  pub data Ends (u : App) : Phase → App → Type 0 where
    last : {p : Phase} {s : App} → thread_step env stop args p s ≡ (u, none) → Ends u p s
    more :
        {p q : Phase} {s t : App}
        → thread_step env stop args p s ≡ (t, some q)
        → Ends u q t
        → Ends u p s

  -- What the thread leaves when it comes to its last text.
  abbrev pub finished : Ending → App → App
  finished e s = finish_sequence (send_text env s args.client (last_message e args))

  pub ending-Ends : (e : Ending) (s : App) → Ends (finished e s) (ending e) s
  unfolding thread_step
  ending-Ends e s = more refl (last refl)

  -- The head of the loop, behind which the thread ends.
  Continues : App → ℕ → List FiringBlock → App → Type 0
  Continues u delay bs s =
      (t : App) × (q : Phase) × (next_block env delay bs s ≡ (t, some q)) × Ends u q t

  sending-Ends :
      (u : App) (n : ℕ) (b : FiringBlock) (bs : List FiringBlock) (s : App)
      → ((try_send env n b s).0 ≡ true → Continues u b.wait_ms bs (try_send env n b s).1)
      → ((try_send env n b s).0 ≡ false → Ends u (ending failed) (try_send env n b s).1)
      → Ends u (sending n b bs) s
  unfolding try_send thread_step Continues
  sending-Ends u zero b bs s go fail = more refl (fail refl)
  sending-Ends u (suc n) b bs s go fail =
      elim (Bool-cases (send_command env s b.id b.value b.duration_ms).1) [
        | inl h ↦ let (t, q, e, x) = (rw h at go) refl in more (rw h e) x
        | inr h ↦ more (rw h refl) (
            sending-Ends u n b bs (send_command env s b.id b.value b.duration_ms).0 (rw h at go)
              (rw h at fail))
      ]

  waiting-Ends :
      (u : App) (fuel d : ℕ) (b : FiringBlock) (bs : List FiringBlock) (s : App) (r : Bool × App)
      → wait_until env (λ k. s.sequence_abort || stop k) fuel d s ≡ some r
      → (r.0 ≡ true
          → r.1.sequence_abort ≡ s.sequence_abort
          → Ends u (sending send_attempts b bs) r.1)
      → (r.0 ≡ false → Ends u (ending aborted) r.1)
      → Ends u (waiting d b bs) s
  unfolding wait_until thread_step
  waiting-Ends u zero d b bs s r e go give = absurd (cc e)
  waiting-Ends u (suc fuel) d b bs s r e go give =
      let again = waiting-Ends u fuel d b bs (called (called s)) r in
      elim (Bool-cases (ltb (env.monotonic_ms s.calls) d)) [
        | inr h ↦
            let q = rw h at e in
            let p : r ≡ (true, called s) = cc q in
            more {q = sending send_attempts b bs} {t = called s} (rw h refl)
              ((rw p at go) refl refl)
        | inl h ↦ elim (Bool-cases (s.sequence_abort || stop (suc s.calls))) [
          | inl k ↦
              let q = rw (h, k) at e in
              let p : r ≡ (false, called (called s)) = cc q in
              more {q = ending aborted} {t = called (called s)} (rw (h, k) refl)
                ((rw p at give) refl)
          | inr k ↦
              more {q = waiting d b bs} {t = called (called s)} (rw (h, k) refl)
                (again (rw (h, k) at e) go give)
        ]
      ]

  abort-try_send :
      (n : ℕ) (b : FiringBlock) (s : App) → (try_send env n b s).1.sequence_abort ≡ s.sequence_abort
  unfolding try_send view
  abort-try_send zero b s = refl
  abort-try_send (suc n) b s =
      let sent = send_command env s b.id b.value b.duration_ms in
      let same =
        ap (λ (v : View). v.sequence_abort)
          (send_command-Wrote env s b.id b.value b.duration_ms).after in
      elim (Bool-cases sent.1) [
        | inl h ↦ rw h same
        | inr h ↦ rw h (abort-try_send n b sent.0 ∙ same)
      ]

  -- The flag as the loops find it.
  abbrev pub flag : Bool → ℕ → Bool
  flag asked k = asked || stop k

  run_blocks-Continues :
      (asked : Bool) (fuel delay : ℕ) (bs : List FiringBlock) (s : App) (r : Ending × App)
      → s.sequence_abort ≡ asked
      → run_blocks env (flag asked) fuel delay bs s ≡ some r
      → Continues (finished r.0 r.1) delay bs s
  unfolding run_blocks send_block Continues next_block
  run_blocks-Continues asked fuel delay [] s r same e =
      let p : r ≡ (completed, s) = cc e in rw p (s, ending completed, refl, ending-Ends completed s)
  run_blocks-Continues asked fuel delay (b ∷ bs) s r same e =
      let d = (env.monotonic_ms s.calls + delay) % 2 ^ 64 in
      elim (Option-cases (wait_with_abort env (flag asked) fuel delay s)) [
        | inl w ↦ absurd (cc (rw (w, run_blocks) at e))
        | inr (q, w) ↦
            let after = rw (w, run_blocks) at e in
            let w' = subst (λ a. wait_with_abort env (flag a) fuel delay s ≡ some q) (sym same) w in
            let sent = try_send env send_attempts b q.1 in
            (
              called s,
              waiting d b bs,
              refl,
              waiting-Ends (finished r.0 r.1) fuel d b bs (called s) q
                  (unfold wait_with_abort in w')
                  (λ k kept.
                    sending-Ends (finished r.0 r.1) send_attempts b bs q.1
                      (λ ok.
                        run_blocks-Continues asked fuel b.wait_ms bs sent.1 r
                          (abort-try_send send_attempts b q.1 ∙ kept ∙ same) (rw (k, ok) at after))
                      (λ bad.
                        let p : r ≡ (failed, sent.1) = cc (rw (k, bad) at after) in
                        rw p (ending-Ends failed sent.1)))
                  (λ k.
                    let p : r ≡ (aborted, q.1) = cc (rw k at after) in
                    rw p (ending-Ends aborted q.1)),
            )
      ]

  -- The thread that nothing comes between ends, with exactly what `sequence_worker` leaves when the
  -- flag of the abort stays as it is.
  sequence_worker-Ends :
      (fuel : ℕ) (s : App) (r : Ending × App)
      → sequence_worker env (flag s.sequence_abort) fuel args s ≡ some r
      → Ends r.1 starting s
  unfolding sequence_worker ended thread_step Continues view
  sequence_worker-Ends fuel s r e =
      let told = send_text env s args.client args.started_message in
      let same =
        ap (λ (v : View). v.sequence_abort)
          (view-send_text env s args.client args.started_message) in
      elim (Option-cases (
        run_blocks env (flag s.sequence_abort) fuel (pre_delay args.config) args.config.blocks
          told)) [
            | inl w ↦ absurd (cc (rw w at e))
            | inr (q, w) ↦
                let p : r ≡ (q.0, finished q.0 q.1) = cc (rw w at e) in
                let (t, at_q, go, x) =
                  run_blocks-Continues s.sequence_abort fuel (pre_delay args.config)
                    args.config.blocks told q same w in
                rw p (more go x)
          ]

  -- On a clock that does not go back and gains ten milliseconds from one round of a wait to the next,
  -- that is, across each reading of the flags that lets the wait go on, unless the next reading does
  -- not, a thread with 16-bit waits that nothing comes between takes finitely many steps to its end,
  -- and leaves exactly what `sequence_worker` leaves, which ends too, when the flag of the abort
  -- stays as it is.
  pub thread_step-Ends :
      (s : App)
      → IsClock env (flag s.sequence_abort)
      → All (λ b. b.wait_ms < 2 ^ 16) args.config.blocks
      → (r : Ending × App) × (sequence_worker env (flag s.sequence_abort) 6555 args s ≡ some r)
        × Ends r.1 starting s
  thread_step-Ends s c a =
      let (r, e) = sequence_worker_total env (flag s.sequence_abort) args s c a in
      (r, e, sequence_worker-Ends 6555 s r e)
