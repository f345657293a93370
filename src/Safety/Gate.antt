-- ===== src/Safety/Gate.antt =====
-- src/control/state.c: what a change of state does.
use static_fire.Base.{Bool, true, false, ◌≡◌, refl, ◌∙◌, ap}
use static_fire.App.View.{View, view, Moved}
use static_fire.App.{App, AppState, prechilling, hotfire, Env, threads}
use static_fire.Bridge.Silent.{view-broadcast_text}
use static_fire.State.{state_set, leave_prechilling, state_broadcast, differs}
use static_fire.Wiggle.Moves.{wiggle_stop_all-Moved}
use static_fire.Wiggle.Slots.{Idle}
use static_fire.Wiggle.Stop.{wiggle_stop_all-Idle}
use static_fire.Safety.{state-Moved}

pub running-view : (s t : App) → view t ≡ view s → threads t.events ≡ threads s.events
unfolding view
running-view s t e = ap (λ (v : View). v.running) e

pub running-Moved : (s t : App) → Moved (view s) (view t) → threads t.events ≡ threads s.events
unfolding view
running-Moved s t m = ap (λ (v : View). v.running) m.after

-- What a change of state leaves.
abbrev pub Sets : App → AppState → App × Bool → Type 0
Sets s st r =
    (r.0.state ≡ st)
    × (r.1 ≡ false → s.state ≡ st)
    × (s.state ≡ st → r.1 ≡ false)
    × (st ≡ prechilling → r.0.wiggles ≡ s.wiggles)
    × (st ≡ hotfire → Idle r.0.wiggles)
    × (threads r.0.events ≡ threads s.events)

module _ (env : Env) where
  leave-running :
      (st : AppState) (s : App) → threads (leave_prechilling env st s).events ≡ threads s.events
  unfolding leave_prechilling
  leave-running prechilling s = refl
  leave-running hotfire s = running-Moved s _ (wiggle_stop_all-Moved env s true)

  pub state_set-running :
      (s : App) (st : AppState) → threads (state_set env s st).0.events ≡ threads s.events
  unfolding state_set state_broadcast
  state_set-running s st =
      running-view _ _
        (view-broadcast_text env (leave_prechilling env st (record s { state = st })) _ false)
      ∙ leave-running st (record s { state = st })

  leave-state : (st : AppState) (s : App) → (leave_prechilling env st s).state ≡ s.state
  unfolding leave_prechilling
  leave-state prechilling s = refl
  leave-state hotfire s = state-Moved s _ (wiggle_stop_all-Moved env s true)

  leave-wiggles :
      (st : AppState) (s : App)
      → (st ≡ prechilling → (leave_prechilling env st s).wiggles ≡ s.wiggles)
        × (st ≡ hotfire → Idle (leave_prechilling env st s).wiggles)
  unfolding leave_prechilling
  leave-wiggles prechilling s = (λ _. refl, λ e. absurd (cc e))
  leave-wiggles hotfire s = (λ e. absurd (cc e), λ _. (wiggle_stop_all-Idle env s true).0)

  differs_iff : (a b : AppState) → (differs a b ≡ false → a ≡ b) × (a ≡ b → differs a b ≡ false)
  unfolding differs
  differs_iff prechilling prechilling = (λ _. refl, λ _. refl)
  differs_iff prechilling hotfire = (λ e. cc e, λ e. cc e)
  differs_iff hotfire prechilling = (λ e. cc e, λ e. cc e)
  differs_iff hotfire hotfire = (λ _. refl, λ _. refl)

  -- A change of state is made whatever the state was: the new state is the one asked for, the flag is
  -- false exactly if it was the state before, the wiggles are kept in PRECHILLING and none is left
  -- active in HOTFIRE, and no thread is created.
  pub state_set_lem : (s : App) (st : AppState) → Sets s st (state_set env s st)
  unfolding state_set state_broadcast view
  state_set_lem s st =
      let t = record s { state = st } in
      let left = leave_prechilling env st t in
      let e = view-broadcast_text env left _ false in
      let w = ap (λ (v : View). v.wiggles) e in
      let (same, idle) = leave-wiggles st t in
      (
        ap (λ (v : View). v.state) e ∙ leave-state st t,
        (differs_iff s.state st).0,
        (differs_iff s.state st).1,
        λ p. w ∙ same p,
        λ h. rw w (idle h),
        state_set-running s st,
      )
