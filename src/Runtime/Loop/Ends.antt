-- ===== src/Runtime/Loop/Ends.antt =====
-- src/main.c: the loop of the server ends and keeps it safe.
use static_fire.Base.{
  ℕ, ◌+◌, ◌*◌, ◌^◌, ◌<◌, Bool, true, false, Option, none, some, List, [], ◌∷◌, ◌++◌, ◌≡◌, refl, inl,
  inr, arith, ap, sym, ◌∙◌, if◌then◌else◌,
}
use static_fire.App.{App, CanFrame, Env}
use static_fire.Bus.{store_rx}
use static_fire.Runtime.{heartbeat_period_ms, on_timer, shutdown_runtime}
use static_fire.Runtime.Loop.{
  ReadCall, ReadResult, frame_read, no_frame, read_failed, can_bus_read_frame, on_readable, Ready,
  Happening, polled, late_signal, interrupted, poll_failed, signal, is_fd, on_signal, with_time,
  on_event, on_events, main_loop,
}
use static_fire.Runtime.Shutdown.{IsStopped, shutdown_runtime_lem}
use static_fire.Runtime.Timer.{on_timer_lem}
use static_fire.Wiggle.{wiggle_process}
use static_fire.Safety.Routine.{signalled, Routine-Stays, store_rx-IsSafe}
use static_fire.Safety.Stays.{Stays-IsSafe}
use static_fire.Safety.{IsSafe}

on_readable-IsSafe : (reads : List ReadCall) (s : App) → IsSafe s → IsSafe (on_readable reads s)
unfolding on_readable
on_readable-IsSafe [] s x = x
on_readable-IsSafe (read ∷ reads) s x =
    go (can_bus_read_frame s.can_fd read)
      (λ f. on_readable-IsSafe reads (store_rx s f) (store_rx-IsSafe s f x))
  where
    go :
        (r : ReadResult)
        → ((f : CanFrame) → IsSafe (on_readable reads (store_rx s f)))
        → IsSafe (elim r [
          | frame_read f ↦ on_readable reads (store_rx s f)
          | no_frame ↦ s
          | read_failed ↦ s
        ])
    go (frame_read f) next = next f
    go no_frame next = x
    go read_failed next = x

on_signal-IsSafe : (s : App) → IsSafe s → IsSafe (on_signal s)
on_signal-IsSafe s x = Stays-IsSafe (Routine-Stays {s = s} signalled) x

-- The result is there, and the server is safe.
abbrev Safely : Option (App × ℕ) → Type 0
Safely o = (r : App × ℕ) × (o ≡ some r) × IsSafe r.0

pick-Safely :
    (b : Bool) (o p : Option (App × ℕ)) → Safely o → Safely p → Safely (if b then o else p)
pick-Safely true o p x y = x
pick-Safely false o p x y = y

module _ (env : Env) (fuel : ℕ) where
  timed : (u : App × Option ℕ) (r : ℕ) → u.1 ≡ some r → IsSafe u.0 → Safely (with_time env fuel u)
  unfolding with_time
  timed (s, none) r e x = absurd (cc e)
  timed (s, some n) r e x = ((s, n), refl, x)

  -- All times of the clock stay below the fuel, counted in periods.
  abbrev InTime : Type 0
  InTime = (n : ℕ) → env.monotonic_ms n < heartbeat_period_ms * fuel

  on_event-Safely :
      (e : Ready) (s : App) (next : ℕ)
      → heartbeat_period_ms * fuel + heartbeat_period_ms < 2 ^ 64
      → InTime
      → IsSafe s
      → Safely (on_event env fuel e s next)
  unfolding on_event
  on_event-Safely e s next b t x =
      pick-Safely (is_fd s.can_fd e.fd) _ _
        ((on_readable e.reads s, next), refl, on_readable-IsSafe e.reads s x)
        (pick-Safely (is_fd s.timer_fd e.fd) _ _ ticked ((s, next), refl, x))
    where
      ticked : Safely (with_time env fuel (on_timer env fuel s next))
      ticked =
          let now = t (wiggle_process env s).calls in
          let (y, beats) =
            on_timer_lem env fuel s next (omega (arith, now)) (omega (arith, now)) x in
          elim beats [
            | inl (_, (r, _, same, _, _, _), _) ↦ timed (on_timer env fuel s next) r same y
            | inr (_, same, _) ↦ timed (on_timer env fuel s next) next same y
          ]

  on_events-Safely :
      (es : List Ready) (s : App) (next : ℕ)
      → heartbeat_period_ms * fuel + heartbeat_period_ms < 2 ^ 64
      → InTime
      → IsSafe s
      → Safely (on_events env fuel es s next)
  unfolding on_events
  on_events-Safely [] s next b t x = ((s, next), refl, x)
  on_events-Safely (e ∷ es) s next b t x =
      let ((u, later), same, y) = on_event-Safely e s next b t x in
      rw (same, on_events) (on_events-Safely es u later b t y)

  main_loop-Safely :
      (hs : List Happening) (s : App) (next : ℕ)
      → heartbeat_period_ms * fuel + heartbeat_period_ms < 2 ^ 64
      → InTime
      → IsSafe s
      → Safely (main_loop env fuel hs s next)
  unfolding main_loop
  main_loop-Safely [] s next b t x = ((s, next), refl, x)
  main_loop-Safely (interrupted ∷ hs) s next b t x =
      pick-Safely s.stop _ _ ((s, next), refl, x) (main_loop-Safely hs s next b t x)
  main_loop-Safely (poll_failed ∷ hs) s next b t x = ((s, next), refl, x)
  main_loop-Safely (signal ∷ hs) s next b t x =
      main_loop-Safely hs (on_signal s) next b t (on_signal-IsSafe s x)
  main_loop-Safely (polled es ∷ hs) s next b t x =
      let ((u, later), same, y) = on_events-Safely es s next b t x in
      pick-Safely s.stop _ _ ((s, next), refl, x)
        (rw (same, main_loop) (main_loop-Safely hs u later b t y))
  main_loop-Safely (late_signal es ∷ hs) s next b t x =
      let ((u, later), same, y) = on_events-Safely es s next b t x in
      pick-Safely s.stop _ _ ((s, next), refl, x)
        (rw (same, main_loop) (main_loop-Safely hs (on_signal u) later b t (on_signal-IsSafe u y)))

  -- Behind a signal the loop does nothing more.
  stopped_lem :
      (hs : List Happening) (s : App) (next : ℕ)
      → main_loop env fuel hs (on_signal s) next ≡ some (on_signal s, next)
  unfolding main_loop on_signal
  stopped_lem [] s next = refl
  stopped_lem (interrupted ∷ hs) s next = refl
  stopped_lem (poll_failed ∷ hs) s next = refl
  stopped_lem (signal ∷ hs) s next = stopped_lem hs s next
  stopped_lem (polled es ∷ hs) s next = refl
  stopped_lem (late_signal es ∷ hs) s next = refl

  -- The signal, ahead of the test of the flag or behind it.
  abbrev pub is_signal : Happening → Bool
  is_signal signal = true
  is_signal (late_signal es) = true
  is_signal (polled es) = false
  is_signal interrupted = false
  is_signal poll_failed = false

  -- The result of a batch of events, with what follows behind it.
  follows-ap :
      (o : Option (App × ℕ)) (f g : App → ℕ → Option (App × ℕ))
      → ((t : App) (later : ℕ) → f t later ≡ g t later)
      → elim o [ none ↦ none | some (t, later) ↦ f t later ]
        ≡ elim o [ none ↦ none | some (t, later) ↦ g t later ]
  follows-ap none f g h = refl
  follows-ap (some (t, later)) f g h = h t later

  last_lem :
      (h : Happening) (rest : List Happening) (s : App) (next : ℕ)
      → is_signal h ≡ true
      → main_loop env fuel (h ∷ rest) s next ≡ main_loop env fuel (h ∷ []) s next
  unfolding main_loop
  last_lem signal rest s next e = stopped_lem rest s next ∙ sym (stopped_lem [] s next)
  last_lem (late_signal es) rest s next e =
      ap (λ (o : Option (App × ℕ)). if s.stop then some (s, next) else o)
        (follows-ap (on_events env fuel es s next) _ _
          (λ t later. stopped_lem rest t later ∙ sym (stopped_lem [] t later)))
  last_lem (polled es) rest s next e = absurd (cc e)
  last_lem interrupted rest s next e = absurd (cc e)
  last_lem poll_failed rest s next e = absurd (cc e)

  signal_lem :
      (hs : List Happening) (h : Happening) (rest : List Happening) (s : App) (next : ℕ)
      → is_signal h ≡ true
      → main_loop env fuel (hs ++ (h ∷ rest)) s next ≡ main_loop env fuel (hs ++ (h ∷ [])) s next
  unfolding main_loop
  signal_lem [] h rest s next e = last_lem h rest s next e
  signal_lem (interrupted ∷ hs) h rest s next e =
      ap (λ (o : Option (App × ℕ)). if s.stop then some (s, next) else o)
        (signal_lem hs h rest s next e)
  signal_lem (poll_failed ∷ hs) h rest s next e = refl
  signal_lem (signal ∷ hs) h rest s next e = signal_lem hs h rest (on_signal s) next e
  signal_lem (polled es ∷ hs) h rest s next e =
      ap (λ (o : Option (App × ℕ)). if s.stop then some (s, next) else o)
        (follows-ap (on_events env fuel es s next) _ _ (λ t later. signal_lem hs h rest t later e))
  signal_lem (late_signal es ∷ hs) h rest s next e =
      ap (λ (o : Option (App × ℕ)). if s.stop then some (s, next) else o)
        (follows-ap (on_events env fuel es s next) _ _
          (λ t later. signal_lem hs h rest (on_signal t) later e))

  -- On a clock that stays below the fuel, counted in periods, the loop of a safe server has a result
  -- for any happenings up to a signal, ahead of the test of the flag or behind it: the server is then
  -- safe, and what happens behind the signal, or behind the one batch of events that a late signal
  -- lets through, changes nothing. After the shutdown no wiggle is active, the flag of the abort is
  -- set, and the WebSocket server and the CAN, timer and epoll descriptors are gone.
  pub main_loop_total :
      (hs : List Happening) (h : Happening) (rest : List Happening) (s : App) (next : ℕ)
      → is_signal h ≡ true
      → heartbeat_period_ms * fuel + heartbeat_period_ms < 2 ^ 64
      → ((n : ℕ) → env.monotonic_ms n < heartbeat_period_ms * fuel)
      → IsSafe s
      → (r : App × ℕ) × (main_loop env fuel (hs ++ (h ∷ rest)) s next ≡ some r)
        × (main_loop env fuel (hs ++ (h ∷ [])) s next ≡ some r)
        × IsSafe r.0
        × IsStopped (shutdown_runtime env r.0)
  main_loop_total hs h rest s next g b t x =
      let (r, e, y) = main_loop-Safely (hs ++ (h ∷ [])) s next b t x in
      (r, signal_lem hs h rest s next g ∙ e, e, y, shutdown_runtime_lem env r.0)
