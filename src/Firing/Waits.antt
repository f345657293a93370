-- ===== src/Firing/Waits.antt =====
-- src/control/firing_sequence.c: the waits of a firing sequence, their end and the abort flag.
use static_fire.Base.{
  ℕ, zero, suc, ◌≤◌, ◌<◌, ◌+◌, ◌*◌, ◌%◌, ◌^◌, Bool, true, false, Option, none, some, List, [], ◌∷◌,
  ◌≡◌, refl, arith, All, Bool-cases, inl, inr, ◌⊎◌, ltb, le→ltb,
}
use static_fire.App.{App, FiringBlock, WorkerArgs, Env, called}
use static_fire.Bridge.{send_text}
use static_fire.Firing.Worker.{
  Ending, completed, aborted, failed, wait_until, wait_with_abort, send_block, run_blocks, ended,
  sequence_worker, pre_delay,
}

-- A clock that does not go back, and gains the ten milliseconds of the sleep from one round of a wait
-- to the next: the flags are read between the two readings of the clock, and the sleep is only behind
-- flags that let the wait go on. A signal may cut a sleep short; it sets the flag of the stop, which
-- the next round finds. Nothing is asked of the calls outside the rounds of a wait, where the flags
-- are not read: `interrupted` is free there.
pub record IsClock (env : Env) (interrupted : ℕ → Bool) : Type 0 where
  pub steady : (n : ℕ) → env.monotonic_ms n ≤ env.monotonic_ms (suc n)
  pub sleeps :
      (n : ℕ)
      → interrupted (suc n) ≡ false
      → (env.monotonic_ms n + 10 ≤ env.monotonic_ms (suc (suc n)))
        ⊎ (interrupted (suc (suc (suc n))) ≡ true)

module _ (env : Env) (interrupted : ℕ → Bool) where
  -- A round that finds the flags set is the last.
  interrupted_lem :
      (fuel deadline : ℕ) (s : App)
      → interrupted (suc s.calls) ≡ true
      → (r : Bool × App) × (wait_until env interrupted (suc fuel) deadline s ≡ some r)
  unfolding wait_until
  interrupted_lem fuel deadline s h = elim (Bool-cases (ltb (env.monotonic_ms s.calls) deadline)) [
    | inr k ↦ ((true, called s), rw k refl)
    | inl k ↦ ((false, called (called s)), rw (k, h) refl)
  ]

  wait_until_total :
      IsClock env interrupted
      → (fuel deadline : ℕ) (s : App) → deadline ≤ env.monotonic_ms s.calls + 10 * fuel
      → (r : Bool × App) × (wait_until env interrupted (suc fuel) deadline s ≡ some r)
  unfolding wait_until
  wait_until_total c zero deadline s le =
      let past = le→ltb (env.monotonic_ms s.calls) deadline (omega arith) in
      ((true, called s), rw past)
  wait_until_total c (suc fuel) deadline s le =
      elim (Bool-cases (ltb (env.monotonic_ms s.calls) deadline)) [
        | inr k ↦ ((true, called s), rw k)
        | inl k ↦ elim (Bool-cases (interrupted (suc s.calls))) [
          | inl j ↦ ((false, called (called s)), rw (k, j))
          | inr j ↦
              let u = called (called s) in
              let (r, e) : (r : Bool × App) × (wait_until env interrupted (suc fuel) deadline u
                    ≡ some r) =
                elim (c.sleeps s.calls j) [
                  | inl slept ↦ wait_until_total c fuel deadline u (omega (arith, slept))
                  | inr set ↦ interrupted_lem fuel deadline u set
                ] in
              (r, rw (k, j) e)
        ]
      ]

  wait_with_abort_total :
      IsClock env interrupted
      → (fuel delay_ms : ℕ) (s : App) → delay_ms ≤ 10 * fuel
      → (r : Bool × App) × (wait_with_abort env interrupted (suc fuel) delay_ms s ≡ some r)
  unfolding wait_with_abort
  wait_with_abort_total c fuel delay_ms s le =
      wait_until_total c fuel _ (called s) (omega (arith, c.steady s.calls))

  run_blocks_total :
      IsClock env interrupted
      → (fuel delay_ms : ℕ) (bs : List FiringBlock) (s : App) → delay_ms ≤ 10 * fuel
      → All (λ b. b.wait_ms ≤ 10 * fuel) bs
      → (r : Ending × App) × (run_blocks env interrupted (suc fuel) delay_ms bs s ≡ some r)
  unfolding run_blocks
  run_blocks_total c fuel delay_ms [] s d a = ((completed, s), refl)
  run_blocks_total c fuel delay_ms (b ∷ bs) s d a =
      let ((go_on, u), w) = wait_with_abort_total c fuel delay_ms s d in
      let rest = run_blocks_total c fuel b.wait_ms bs (send_block env b u).1 a.0 a.1 in
      elim (Bool-cases go_on) [
        | inr k ↦ ((aborted, u), rw (w, run_blocks) (rw k))
        | inl k ↦ elim (Bool-cases (send_block env b u).0) [
          | inr j ↦ ((failed, (send_block env b u).1), rw (w, run_blocks) (rw (k, j)))
          | inl j ↦ (rest.0, rw (w, run_blocks) (rw (k, j) rest.1))
        ]
      ]

  short_waits :
      (bs : List FiringBlock)
      → All (λ b. b.wait_ms < 2 ^ 16) bs
      → All (λ b. b.wait_ms ≤ 10 * 6554) bs
  short_waits [] a = tt
  short_waits (b ∷ bs) a = (omega arith, short_waits bs a.1)

  ended_total :
      (args : WorkerArgs) (o : Option (Ending × App)) (r : Ending × App)
      → o ≡ some r
      → (x : Ending × App) × (ended env args o ≡ some x)
  unfolding ended
  ended_total args none r h = cc
  ended_total args (some (d, u)) r h = (_, refl)

  -- On a clock that does not go back and gains ten milliseconds across each reading of the flags that
  -- lets a wait go on, unless the next reading does not, a thread whose blocks have 16-bit waits ends, whatever it finds of the flags:
  -- 6555 rounds are enough for each wait.
  pub sequence_worker_total :
      (args : WorkerArgs) (s : App)
      → IsClock env interrupted
      → All (λ b. b.wait_ms < 2 ^ 16) args.config.blocks
      → (r : Ending × App) × (sequence_worker env interrupted 6555 args s ≡ some r)
  unfolding sequence_worker pre_delay
  sequence_worker_total args s c a =
      let begun = send_text env s args.client args.started_message in
      let (r, e) =
        run_blocks_total c 6554 (pre_delay args.config) args.config.blocks begun (ground arith)
          (short_waits args.config.blocks a) in
      ended_total args _ r e

  -- A wait of no length returns without a look at the flag.
  pub no_wait :
      (fuel delay_ms : ℕ) (s : App)
      → delay_ms ≡ 0
      → env.monotonic_ms s.calls ≤ env.monotonic_ms (suc s.calls)
      → wait_with_abort env interrupted (suc fuel) delay_ms s ≡ some (true, called (called s))
  unfolding wait_with_abort wait_until
  no_wait fuel delay_ms s z h =
      let deadline = (env.monotonic_ms s.calls + delay_ms) % 2 ^ 64 in
      rw (le→ltb (env.monotonic_ms (suc s.calls)) deadline (omega arith))
