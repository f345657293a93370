-- ===== src/Runtime/Timer.antt =====
-- src/main.c: the timer, and the time of the next heartbeat.
use static_fire.Base.{
  Bytes, ℕ, zero, suc, ◌+◌, ◌*◌, ◌%◌, ◌^◌, ◌≤◌, ◌<◌, true, Option, some, ◌∷◌, ◌≡◌, refl, ◌∙◌, ap,
  arith, ltb, leb, length, Bool-cases, inl, inr, ◌⊎◌, if◌then◌else◌,
}
use static_fire.App.View.{View, view}
use static_fire.App.{App, Env, called, frames}
use static_fire.Bridge.Silent.{view-broadcast_text}
use static_fire.Bus.{format_dirty, send_command, command_frame}
use static_fire.Bus.Frames.{send_command-frames}
use static_fire.Bus.Report.{format_dirty-flags}
use static_fire.Wiggle.{wiggle_process}
use static_fire.Runtime.{
  heartbeat_period_ms, buffer_size, catch_up, flush_text, flush_can_updates, heartbeat_send,
  on_timer,
}
use static_fire.Safety.{IsSafe}
use static_fire.Safety.Commands.{called-IsSafe}
use static_fire.Safety.Routine.{
  wiggle_process-IsSafe, flush_can_updates-IsSafe, heartbeat_send-IsSafe,
}

-- From a time that is not ahead, the loop ends at the first time ahead that is a number of periods
-- later.
catch_up_total :
    (fuel now next : ℕ)
    → next ≤ now
    → now + heartbeat_period_ms < 2 ^ 64
    → now < next + heartbeat_period_ms * fuel
    → (r : ℕ) × (k : ℕ) × (catch_up fuel now next ≡ some r)
      × (r ≡ next + 1000 * k)
      × (now < r)
      × (r ≤ now + 1000)
unfolding catch_up
catch_up_total zero now next h b f = absurd (omega arith)
catch_up_total (suc fuel) now next h b f =
    let later = (next + heartbeat_period_ms) % 2 ^ 64 in
    let exact : later ≡ next + 1000 = omega (arith, h, b) in
    elim (Bool-cases (leb later now)) [
      | inl k ↦
          let (r, n, e, same, lt, le) =
            catch_up_total fuel now later (ground arith) b (omega (arith, exact, f)) in
          (r, suc n, rw k e, omega (arith, same, exact), lt, le)
      | inr k ↦ (later, 1, rw k refl, omega (arith, exact), ground arith, omega (arith, exact, h))
    ]

module _ (env : Env) where
  frames-view : (s t : App) → view t ≡ view s → frames t.events ≡ frames s.events
  unfolding view
  frames-view s t e = ap (λ (v : View). v.on_bus) e

  frames-flush_text : (r : Bytes × App) → frames (flush_text env r).events ≡ frames r.1.events
  unfolding flush_text
  frames-flush_text (text, s) = elim (Bool-cases (ltb 0 (length text))) [
    | inl h ↦ rw h (frames-view s _ (view-broadcast_text env s text true))
    | inr h ↦ rw h refl
  ]

  frames-flush_can_updates : (s : App) → frames (flush_can_updates env s).events ≡ frames s.events
  unfolding flush_can_updates
  frames-flush_can_updates s =
      let (flags, e) = format_dirty-flags s buffer_size in
      frames-flush_text (format_dirty s buffer_size) ∙ ap (λ (t : App). frames t.events) e

  -- What the timer does behind the tick: the next time, and the frames.
  abbrev pub Beats : ℕ → App → ℕ → App × Option ℕ → Type 0
  Beats now moved next (t, later) =
      ((next ≤ now)
        × ((r : ℕ) × (k : ℕ) × (later ≡ some r)
            × (r ≡ next + 1000 * k)
            × (now < r)
            × (r ≤ now + 1000))
        × (frames t.events ≡ (
            if (send_command env (called moved) 0x001 0x0001 0).1
            then command_frame 0x001 0x0001 0 ∷ frames moved.events
            else frames moved.events)))
      ⊎ ((now < next) × (later ≡ some next) × (frames t.events ≡ frames moved.events))

  -- When the timer fires, a safe server stays safe. If the heartbeat is due behind the tick, its frame
  -- is put on the bus, unless the socket refuses it, and with fuel for the periods that have passed
  -- the loop behind it ends: the next time is a number of periods later, and the first of these
  -- times that lies ahead of the clock. If it is not due, the next time is the old one and no frame
  -- is put on the bus but those of the tick.
  pub on_timer_lem :
      (fuel : ℕ) (s : App) (next : ℕ)
      → let moved = wiggle_process env s in
        let now = env.monotonic_ms moved.calls in
        now + heartbeat_period_ms < 2 ^ 64
        → now < next + heartbeat_period_ms * fuel
        → IsSafe s
        → IsSafe (on_timer env fuel s next).0 × Beats now moved next (on_timer env fuel s next)
  unfolding on_timer heartbeat_send
  on_timer_lem fuel s next b f x =
      let moved = wiggle_process env s in
      let now = env.monotonic_ms moved.calls in
      let y = called-IsSafe moved (wiggle_process-IsSafe env s x) in
      elim (Bool-cases (leb next now)) [
        | inl h ↦
            let due : next ≤ now = ground arith in
            rw h (
              flush_can_updates-IsSafe env _ (heartbeat_send-IsSafe env (called moved) y),
              inl (
                due,
                catch_up_total fuel now next due b f,
                frames-flush_can_updates _ ∙ send_command-frames env (called moved) 0x001 0x0001 0,
              ),
            )
        | inr h ↦ rw h (
          flush_can_updates-IsSafe env (called moved) y,
          inr (ground arith, refl, frames-flush_can_updates (called moved)),
        )
      ]
