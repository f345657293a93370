-- ===== src/Firing/Ticks.antt =====
-- src/util/logger.c: the clock that the waits of a sequence read.
use static_fire.Base.{ℕ, suc, ◌+◌, ◌*◌, ◌≤◌, ◌≡◌, Bool, false, true, ◌⊎◌, inl, inr, arith}
use static_fire.App.{Env}
use static_fire.Clock.{Timespec, IsTime, monotonic_ms, monotonic_ms_gains}
use static_fire.Firing.Waits.{IsClock}

-- What the kernel counts, in nanoseconds.
abbrev nanoseconds : Timespec → ℕ
nanoseconds ts = ts.sec * 1000000000 + ts.nsec

module _ (env : Env) (interrupted : ℕ → Bool) (ts : ℕ → Timespec) where
  -- If the kernel's clock does not go back, and a sleep, which is only behind flags that let the wait go
  -- on, takes the ten milliseconds that it was asked for, or is cut short by a signal that the next
  -- reading of the flags finds, the clock of the waits has what they need.
  pub monotonic_ms-IsClock :
      ((n : ℕ) → env.monotonic_ms n ≡ monotonic_ms (ts n))
      → ((n : ℕ) → IsTime (ts n))
      → ((n : ℕ) → nanoseconds (ts n) ≤ nanoseconds (ts (suc n)))
      → ((n : ℕ)
          → interrupted (suc n) ≡ false
          → (nanoseconds (ts n) + 10000000 ≤ nanoseconds (ts (suc (suc n))))
            ⊎ (interrupted (suc (suc (suc n))) ≡ true))
      → IsClock env interrupted
  monotonic_ms-IsClock reads t steady sleeps = record {
    steady = λ n.
        let e =
          monotonic_ms_gains (ts n) (ts (suc n)) 0 (t n) (t (suc n)) (omega (arith, steady n)) in
        rw (reads n, reads (suc n)) (omega (arith, e));
    sleeps = λ n going. elim (sleeps n going) [
      | inl slept ↦ inl (
          rw (reads n, reads (suc (suc n)))
            (monotonic_ms_gains (ts n) (ts (suc (suc n))) 10 (t n) (t (suc (suc n)))
              (omega (arith, slept))))
      | inr set ↦ inr set
    ];
  }
