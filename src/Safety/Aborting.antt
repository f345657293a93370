-- ===== src/Safety/Aborting.antt =====
-- An abort that comes while the thread of a sequence runs.
use static_fire.Base.{
  ℕ, ◌<◌, Bool, true, false, refl, lt→ltb, Option, some, List, [], ◌∷◌, ◌≡◌, ◌∙◌, sym, ap, inl, inr,
}
use static_fire.App.View.{View, view}
use static_fire.App.{App, AppConfig, FiringBlock, WorkerArgs, Env, called, frames}
use static_fire.Bridge.Silent.{view-send_text}
use static_fire.Firing.{finish_sequence}
use static_fire.Firing.Alone.{Ends, more, finished, ending-Ends}
use static_fire.Firing.Thread.{Phase, waiting, ending, thread_step}
use static_fire.Firing.Worker.{Ending, aborted, last_message}
use static_fire.Safety.Claims.{Claimed}
use static_fire.Safety.Serves.{Serve-Claimed}
use static_fire.Safety.Threads.{
  Job, World, Turn, serve, run, Runs, turn, Exclusive, Runs-Exclusive, Advances,
  thread_step-Advances,
}
use static_fire.Safety.Serves.{Serve-Claimed}

-- The turns after which the active flag is still set: those before the thread ends.
pub data Meanwhile (w : World) : World → Type 0 where
  here : Meanwhile w w
  later : {u v : World} → Meanwhile w u → Turn u v → v.server.sequence_active ≡ true → Meanwhile w v

active_job :
    (w : World) → w.server.sequence_active ≡ true → Exclusive w → (j : Job) × (w.jobs ≡ j ∷ [])
active_job w on (inl (_, off)) = absurd (cc (on, off))
active_job w on (inr (j, one, _)) = (j, one)

served-abort :
    {s t : App}
    → s.sequence_active ≡ true
    → s.sequence_abort ≡ true
    → Claimed s t
    → t.sequence_abort ≡ true
served-abort on asked (inl k) = k.abort_kept on asked
served-abort on asked (inr k) = absurd (cc (on, k.idle_before))

stepped-abort :
    (s : App) (r : App × Option Phase)
    → s.sequence_active ≡ true
    → s.sequence_abort ≡ true
    → r.0.sequence_active ≡ true
    → Advances s r
    → r.0.sequence_abort ≡ true
unfolding finish_sequence
stepped-abort s r on asked still (inl e) =
    absurd (cc (sym still ∙ ap (λ (q : App × Option Phase). q.0.sequence_active) e))
stepped-abort s r on asked still (inr (k, _)) = k.abort_kept on asked

Turn-abort :
    {w v : World}
    → Turn w v
    → w.server.sequence_active ≡ true
    → w.server.sequence_abort ≡ true
    → v.server.sequence_active ≡ true
    → v.server.sequence_abort ≡ true
Turn-abort {w} (serve new st e) on asked still = served-abort on asked (Serve-Claimed st)
Turn-abort {w} (run env stop front back j e) on asked still =
    stepped-abort w.server _ on asked still (thread_step-Advances env stop j.args j.phase w.server)

Meanwhile-active :
    {w v : World}
    → Meanwhile w v
    → w.server.sequence_active ≡ true
    → v.server.sequence_active ≡ true
Meanwhile-active here on = on
Meanwhile-active (later m t still) on = still

Meanwhile-abort :
    {w v : World}
    → Meanwhile w v
    → w.server.sequence_active ≡ true
    → w.server.sequence_abort ≡ true
    → v.server.sequence_abort ≡ true
Meanwhile-abort here on asked = asked
Meanwhile-abort (later m t still) on asked =
    Turn-abort t (Meanwhile-active m on) (Meanwhile-abort m on asked) still

Meanwhile-Runs : {w v : World} (cfg : AppConfig) → Runs cfg w → Meanwhile w v → Runs cfg v
Meanwhile-Runs cfg r here = r
Meanwhile-Runs cfg r (later m t _) = turn (Meanwhile-Runs cfg r m) t

-- What becomes of a thread that waits for a deadline that lies ahead, if nothing comes between its
-- steps from here on: it ends with the text of an abort, without a frame, and is not active.
abbrev pub GivesUp : World → Job → Type 0
GivesUp w j =
    (env : Env) (stop : ℕ → Bool) (deadline : ℕ) (b : FiringBlock) (bs : List FiringBlock)
    → j.phase ≡ waiting deadline b bs
    → env.monotonic_ms w.server.calls < deadline
    → let u = finished env stop j.args aborted (called (called w.server)) in
      Ends env stop j.args u j.phase w.server
      × (frames u.events ≡ frames w.server.events)
      × (u.sequence_active ≡ false)
      × (u.sequence_abort ≡ false)

finished-frames :
    (env : Env) (stop : ℕ → Bool) (args : WorkerArgs) (e : Ending) (s : App)
    → frames (finished env stop args e s).events ≡ frames s.events
unfolding finish_sequence view
finished-frames env stop args e s =
    ap (λ (v : View). v.on_bus) (view-send_text env s args.client (last_message e args))

asked-GivesUp : (w : World) (j : Job) → w.server.sequence_abort ≡ true → GivesUp w j
unfolding thread_step finish_sequence
asked-GivesUp w j asked env stop d b bs e h =
    let read = called (called w.server) in
    let step : thread_step env stop j.args (waiting d b bs) w.server
        ≡ (read, some (ending aborted)) =
      rw (lt→ltb (env.monotonic_ms w.server.calls) d h, asked) refl in
    (
      rw e (more step (ending-Ends env stop j.args aborted read)),
      finished-frames env stop j.args aborted read,
      refl,
      refl,
    )

-- Once an abort was requested of a running sequence, and until its thread ends, whatever turns are taken
-- in between (callbacks with any text, steps of the main loop, the heartbeat and the report among
-- them, and steps of the thread): there is this one thread, and the request stays. If the thread
-- waits for a deadline that lies ahead, its own steps from there, with none between them, end it:
-- it tells its client of the abort, puts no frame on the bus and clears both flags.
pub Runs-aborted :
    (cfg : AppConfig) {w v : World}
    → Runs cfg w
    → w.server.sequence_active ≡ true
    → w.server.sequence_abort ≡ true
    → Meanwhile w v
    → (v.server.sequence_abort ≡ true) × ((j : Job) × (v.jobs ≡ j ∷ []) × GivesUp v j)
Runs-aborted cfg {w} {v} r on asked m =
    let still = Meanwhile-abort m on asked in
    let (j, one) =
      active_job v (Meanwhile-active m on) (Runs-Exclusive cfg (Meanwhile-Runs cfg r m)) in
    (still, (j, one, asked-GivesUp v j still))
