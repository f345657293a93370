-- ===== src/Clock.antt =====
-- src/util/heartbeat.c, src/util/logger.c: the clocks, from what `clock_gettime` stores. `time_t` has 64
-- bits, and no clock lies before its origin.
use static_fire.Base.{ℕ, ◌+◌, ◌*◌, ◌/◌, ◌%◌, ◌^◌, ◌≤◌, ◌<◌, Option, none, some, arith, refl, ◌≡◌}

pub record Timespec : Type 0 where
  pub sec : ℕ
  pub nsec : ℕ

unfoldable pub monotonic_ms : Timespec → ℕ
monotonic_ms ts = (ts.sec * 1000 % 2 ^ 64 + ts.nsec / 1000000) % 2 ^ 64

unfoldable pub realtime_ns : Timespec → ℕ
realtime_ns ts = (ts.sec * 1000000000 % 2 ^ 64 + ts.nsec) % 2 ^ 64

-- `none` is a failure of `clock_gettime`.
unfoldable pub heartbeat_now_ms : Option Timespec → ℕ
heartbeat_now_ms none = 0
heartbeat_now_ms (some ts) = (ts.sec * 1000 % 2 ^ 64 + ts.nsec / 1000000) % 2 ^ 64

-- A time that the kernel gives, in the first five hundred years.
pub record IsTime (ts : Timespec) : Type 0 where
  pub below_second : ts.nsec < 1000000000
  pub early : ts.sec < 2 ^ 34

-- Where a clock gains ten milliseconds, its count of milliseconds gains ten.
pub monotonic_ms_gains :
    (a b : Timespec) (ms : ℕ)
    → IsTime a
    → IsTime b
    → a.sec * 1000000000 + a.nsec + ms * 1000000 ≤ b.sec * 1000000000 + b.nsec
    → monotonic_ms a + ms ≤ monotonic_ms b
unfolding monotonic_ms
monotonic_ms_gains a b ms s t h = omega (arith, s.below_second, s.early, t.below_second, t.early, h)

heartbeat_now_ms-monotonic_ms : (ts : Timespec) → heartbeat_now_ms (some ts) ≡ monotonic_ms ts
unfolding heartbeat_now_ms monotonic_ms
heartbeat_now_ms-monotonic_ms ts = refl
