-- ===== src/Safety/MainLoop.antt =====
-- src/main.c: the main loop takes no steps but those of `Routine`.
use static_fire.Base.{
  ℕ, Bool, true, false, Option, none, some, List, [], ◌∷◌, Bool-cases, inl, inr, leb, if◌then◌else◌,
}
use static_fire.App.{App, CanFrame, Env}
use static_fire.Runtime.{on_timer}
use static_fire.Runtime.Loop.{
  ReadCall, ReadResult, frame_read, no_frame, read_failed, can_bus_read_frame, on_readable, Ready,
  Happening, polled, late_signal, interrupted, poll_failed, signal, is_fd, on_signal, with_time,
  on_event, on_events, main_loop,
}
use static_fire.Safety.Routine.{Routine, tick, clock, heartbeat, report, receive, signalled}
use static_fire.Bus.{store_rx}
use static_fire.Wiggle.{wiggle_process}

-- Steps of the main loop, one after the other.
pub data Routines (s : App) : App → Type 0 where
  rests : Routines s s
  goes_on : {t u : App} → Routines s t → Routine t u → Routines s u

on_readable-Routines :
    (reads : List ReadCall) (s t : App) → Routines s t → Routines s (on_readable reads t)
unfolding on_readable
on_readable-Routines [] s t x = x
on_readable-Routines (read ∷ reads) s t x =
    go (can_bus_read_frame t.can_fd read)
      (λ f. on_readable-Routines reads s (store_rx t f) (goes_on x (receive f)))
  where
    go :
        (r : ReadResult)
        → ((f : CanFrame) → Routines s (on_readable reads (store_rx t f)))
        → Routines s (elim r [
          | frame_read f ↦ on_readable reads (store_rx t f)
          | no_frame ↦ t
          | read_failed ↦ t
        ])
    go (frame_read f) next = next f
    go no_frame next = x
    go read_failed next = x

-- A result, if there is one, is behind such steps.
abbrev pub Behind : App → Option (App × ℕ) → Type 0
Behind s none = Unit
Behind s (some (t, later)) = Routines s t

pick-Behind :
    (s : App) (b : Bool) (o p : Option (App × ℕ))
    → Behind s o
    → Behind s p
    → Behind s (if b then o else p)
pick-Behind s true o p x y = x
pick-Behind s false o p x y = y

follows-Behind :
    (s : App) (o : Option (App × ℕ)) (f : App → ℕ → Option (App × ℕ))
    → Behind s o
    → ((t : App) (later : ℕ) → Routines s t → Behind s (f t later))
    → Behind s (elim o [ none ↦ none | some (t, later) ↦ f t later ])
follows-Behind s none f x h = tt
follows-Behind s (some (t, later)) f x h = h t later x

module _ (env : Env) (fuel : ℕ) where
  -- The timer: a tick, a reading of the clock, the heartbeat if it is due, and the report.
  on_timer-Routines :
      (s t : App) (next : ℕ) → Routines s t → Routines s (on_timer env fuel t next).0
  unfolding on_timer
  on_timer-Routines s t next x =
      let moved = wiggle_process env t in
      let y = goes_on (goes_on x (tick env)) clock in
      elim (Bool-cases (leb next (env.monotonic_ms moved.calls))) [
        | inl h ↦ rw h (goes_on (goes_on y (heartbeat env)) (report env))
        | inr h ↦ rw h (goes_on y (report env))
      ]

  timed-Behind : (s : App) (u : App × Option ℕ) → Routines s u.0 → Behind s (with_time env fuel u)
  unfolding with_time
  timed-Behind s (t, none) x = tt
  timed-Behind s (t, some n) x = x

  on_event-Behind :
      (e : Ready) (s t : App) (next : ℕ) → Routines s t → Behind s (on_event env fuel e t next)
  unfolding on_event
  on_event-Behind e s t next x =
      pick-Behind s (is_fd t.can_fd e.fd) _ _ (on_readable-Routines e.reads s t x) (
        pick-Behind s (is_fd t.timer_fd e.fd) _ _ (timed-Behind s _ (on_timer-Routines s t next x))
          x)

  on_events-Behind :
      (es : List Ready) (s t : App) (next : ℕ)
      → Routines s t
      → Behind s (on_events env fuel es t next)
  unfolding on_events
  on_events-Behind [] s t next x = x
  on_events-Behind (e ∷ es) s t next x =
      follows-Behind s (on_event env fuel e t next) _ (on_event-Behind e s t next x)
        (λ u later y. on_events-Behind es s u later y)

  -- Whatever happens to the main loop, its result is behind a sequence of ticks, readings of the clock,
  -- heartbeats, reports, received frames and signals.
  pub main_loop-Behind :
      (hs : List Happening) (s t : App) (next : ℕ)
      → Routines s t
      → Behind s (main_loop env fuel hs t next)
  unfolding main_loop
  main_loop-Behind [] s t next x = x
  main_loop-Behind (interrupted ∷ hs) s t next x =
      pick-Behind s t.stop _ _ x (main_loop-Behind hs s t next x)
  main_loop-Behind (poll_failed ∷ hs) s t next x = x
  main_loop-Behind (signal ∷ hs) s t next x =
      main_loop-Behind hs s (on_signal t) next (goes_on x signalled)
  main_loop-Behind (polled es ∷ hs) s t next x = pick-Behind s t.stop _ _ x (
      follows-Behind s (on_events env fuel es t next) _ (on_events-Behind es s t next x)
        (λ u later y. main_loop-Behind hs s u later y))
  main_loop-Behind (late_signal es ∷ hs) s t next x = pick-Behind s t.stop _ _ x (
      follows-Behind s (on_events env fuel es t next) _ (on_events-Behind es s t next x)
        (λ u later y. main_loop-Behind hs s (on_signal u) later (goes_on y signalled)))
