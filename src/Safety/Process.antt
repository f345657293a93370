-- ===== src/Safety/Process.antt =====
-- The safety of the whole process: of the server under what is served and the steps that the threads
-- of sequences take.
use static_fire.Base.{ℕ, Option, none, some, List, [], ap}
use static_fire.App.View.{View, view}
use static_fire.App.{App, AppConfig, Env, init}
use static_fire.Runtime.Loop.{Happening, main_loop}
use static_fire.Safety.MainLoop.{Routines, rests, goes_on, Behind, main_loop-Behind}
use static_fire.Safety.Serves.{Routine-Kept}
use static_fire.Safety.{IsSafe}
use static_fire.Safety.Beside.{thread_step-Stays}
use static_fire.Safety.Stays.{Stays-IsSafe}
use static_fire.Safety.Reach.{routine, Serve-IsSafe, IsSafe-same, init-IsSafe}
use static_fire.Safety.Threads.{
  Job, World, Turn, serve, run, Runs, start, turn, Exclusive, Runs-Exclusive,
}

Turn-IsSafe : {w v : World} → Turn w v → IsSafe w.server → IsSafe v.server
Turn-IsSafe {w} (serve new st e) x = Serve-IsSafe st x
Turn-IsSafe {w} (run env stop front back j e) x =
    Stays-IsSafe (thread_step-Stays env stop j.args j.phase w.server) x

Runs-server : (cfg : AppConfig) {w : World} → Runs cfg w → IsSafe w.server
unfolding view init
Runs-server cfg (start s e) =
    IsSafe-same (init cfg) s (ap (λ (v : View). v.wiggles) e) (ap (λ (v : View). v.state) e)
      (ap (λ (v : View). v.valve_profile) e) (ap (λ (v : View). v.on_bus) e)
      (ap (λ (v : View). v.running) e) (init-IsSafe cfg)
Runs-server cfg (turn r t) = Turn-IsSafe t (Runs-server cfg r)

-- The steps of the main loop are turns, and create no thread.
Routines-Runs :
    (cfg : AppConfig) {w : World} {t : App}
    → Runs cfg w
    → Routines w.server t
    → Runs cfg (record { server = t; jobs = w.jobs })
Routines-Runs cfg r rests = r
Routines-Runs cfg r (goes_on more next) =
    turn (Routines-Runs cfg r more) (serve [] (routine next) (Routine-Kept next).same_threads)

-- What the main loop leaves, if its fuel is enough, with these threads, is reachable.
abbrev pub LoopRuns : AppConfig → List Job → Option (App × ℕ) → Type 0
LoopRuns cfg jobs none = Unit
LoopRuns cfg jobs (some (t, later)) = Runs cfg (record { server = t; jobs = jobs })

Behind-LoopRuns :
    (cfg : AppConfig) {w : World} (o : Option (App × ℕ))
    → Runs cfg w
    → Behind w.server o
    → LoopRuns cfg w.jobs o
Behind-LoopRuns cfg none r x = tt
Behind-LoopRuns cfg (some (t, later)) r x = Routines-Runs cfg r x

-- Every state that the process can reach by turns of these kinds, in any order and whatever the outside
-- returns at each, is safe: a callback (a text or another frame of a client, a connection, a
-- disconnection), a step of the main loop (a tick, a reading of the clock, the heartbeat, the report
-- of values with its broadcast, a received frame, a signal), a step of the thread of a sequence.
-- Safe means that the table of wiggles is well formed, the valve profile is in range, the frames
-- written to the bus are classic ones, each thread was given 1 to 24 valid blocks, and in HOTFIRE no
-- wiggle is active. There is never more than one thread of a sequence, and the active flag is set
-- exactly while there is one. A run of the main loop from such a state, over anything that
-- `epoll_wait`, the socket and signals give, leads to such a state again, as long as its catch-up
-- loop has fuel.
pub Runs-IsSafe :
    (cfg : AppConfig) {w : World}
    → Runs cfg w
    → IsSafe w.server
      × Exclusive w
      × ((env : Env) (fuel : ℕ) (hs : List Happening) (next : ℕ)
          → LoopRuns cfg w.jobs (main_loop env fuel hs w.server next))
Runs-IsSafe cfg {w} r = (
  Runs-server cfg r,
  Runs-Exclusive cfg r,
  λ env fuel hs next.
      Behind-LoopRuns cfg (main_loop env fuel hs w.server next) r
        (main_loop-Behind env fuel hs w.server w.server next rests),
)
