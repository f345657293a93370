-- ===== src/Safety.antt =====
-- The safety of the whole server: what holds of every state that commands, ticks, received frames
-- and clients can lead to.
pub mod Handlers
pub mod Commands
pub mod Dispatch
pub mod Stays
pub mod Routine
pub mod Beside
pub mod MainLoop
pub mod Reach
pub mod Answers
pub mod Modes
pub mod Gate
pub mod Abort
pub mod Claims
pub mod Starts
pub mod Serves
pub mod Threads
pub mod Aborting
pub mod Process
pub mod Sections
pub mod Whole
pub mod Prechilling
use static_fire.Base.{
  ℕ, ◌≤◌, ◌<◌, List, ◌≡◌, ap, All, arith, subst, sym, length, ◌++◌, All-append, ◌∙◌,
}
use static_fire.App.View.{View, view, IsClassic, Wrote, Moved}
use static_fire.App.{App, hotfire, ValveProfile, WorkerArgs, frames, threads}
use static_fire.Wiggle.Slots.{IsTable, Idle}
use static_fire.Firing.Parse.{IsBlock}

-- What SET_VALVE checks: standard ids, and angles of at most 180.
pub record IsProfile (p : ValveProfile) : Type 0 where
  pub main_id : p.lox_main_valve_id ≤ 0x7FF
  pub vent_id : p.lox_vent_valve_id ≤ 0x7FF
  pub main_angle : p.lox_main_angle_open ≤ 0x0B4
  pub vent_angle : p.lox_vent_angle_close ≤ 0x0B4

-- A thread is given 1 to 24 blocks that may be sent.
pub record IsWorker (a : WorkerArgs) : Type 0 where
  pub blocks : All IsBlock a.config.blocks
  pub some_block : 1 ≤ length a.config.blocks
  pub at_most : length a.config.blocks ≤ 24

pub record IsSound (s : App) : Type 0 where
  pub table : IsTable s.wiggles
  pub profile : IsProfile s.valve_profile
  pub bus : All IsClassic (frames s.events)
  pub workers : All IsWorker (threads s.events)

-- No valve is wiggled in HOTFIRE.
abbrev pub IsQuiet : App → Type 0
IsQuiet s = s.state ≡ hotfire → Idle s.wiggles

pub record IsSafe (s : App) : Type 0 where
  pub sound : IsSound s
  pub quiet : IsQuiet s

record IsSoundView (v : View) : Type 0 where
  table : IsTable v.wiggles
  profile : IsProfile v.valve_profile
  bus : All IsClassic v.on_bus
  workers : All IsWorker v.running

seen : {s : App} → IsSound s → IsSoundView (view s)
unfolding view
seen x = record { table = x.table; profile = x.profile; bus = x.bus; workers = x.workers }

unseen : {s : App} → IsSoundView (view s) → IsSound s
unfolding view
unseen x = record { table = x.table; profile = x.profile; bus = x.bus; workers = x.workers }

IsSoundView-Moved : {v w : View} → Moved v w → IsTable w.wiggles → IsSoundView v → IsSoundView w
IsSoundView-Moved {v} {w} m t x = subst IsSoundView (sym m.after) (record {
  table = t;
  profile = x.profile;
  bus = All-append IsClassic m.new v.on_bus m.classic x.bus;
  workers = x.workers;
})

IsSoundView-Wrote : {v w : View} → Wrote v w → IsSoundView v → IsSoundView w
IsSoundView-Wrote {v} {w} m x = subst IsSoundView (sym m.after) (record {
  table = x.table;
  profile = x.profile;
  bus = All-append IsClassic m.new v.on_bus m.classic x.bus;
  workers = x.workers;
})

module _ (s t : App) where
  pub IsSound-Moved : Moved (view s) (view t) → IsTable t.wiggles → IsSound s → IsSound t
  IsSound-Moved m table x = unseen (IsSoundView-Moved m (unfold view in table) (seen x))

  pub IsSound-Wrote : Wrote (view s) (view t) → IsSound s → IsSound t
  IsSound-Wrote m x = unseen (IsSoundView-Wrote m (seen x))

  pub IsSound-view : view t ≡ view s → IsSound s → IsSound t
  IsSound-view e x = unseen (subst IsSoundView (sym e) (seen x))

  pub state-Moved : Moved (view s) (view t) → t.state ≡ s.state
  unfolding view
  state-Moved m = ap (λ (v : View). v.state) m.after

  pub IsQuiet-Wrote : Wrote (view s) (view t) → IsQuiet s → IsQuiet t
  unfolding view
  IsQuiet-Wrote m q = λ h.
      subst Idle (sym (ap (λ (v : View). v.wiggles) m.after))
        (q (sym (ap (λ (v : View). v.state) m.after) ∙ h))

  pub IsSafe-Wrote : Wrote (view s) (view t) → IsSafe s → IsSafe t
  IsSafe-Wrote m x = record { sound = IsSound-Wrote m x.sound; quiet = IsQuiet-Wrote m x.quiet }
