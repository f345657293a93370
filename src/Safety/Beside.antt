-- ===== src/Safety/Beside.antt =====
-- src/main.c, src/control/firing_sequence.c: what may happen beside a callback: the steps of the main
-- loop, and those of the thread of a sequence.
use static_fire.Base.{
  ℕ, zero, suc, Bool, true, false, ◌||◌, Option, some, List, [], ◌∷◌, refl, ltb, if◌then◌else◌,
}
use static_fire.App.{App, FiringBlock, WorkerArgs, Env, called}
use static_fire.Bus.{send_command}
use static_fire.Firing.{finish_sequence}
use static_fire.Firing.Thread.{
  Phase, starting, waiting, sending, ending, finishing, next_block, thread_step,
}
use static_fire.Firing.Worker.{aborted}
use static_fire.Safety.Routine.{Routine, Routine-Stays}
use static_fire.Safety.Stays.{
  Stays, Stays-trans, Stays-same, Stays-refl, called-Stays, logged-Stays, send_text-Stays,
  send_command-Stays,
}

module _ (env : Env) (stop : ℕ → Bool) (args : WorkerArgs) where
  next_block-Stays :
      (delay : ℕ) (bs : List FiringBlock) (s t : App)
      → Stays s t
      → Stays s (next_block env delay bs t).0
  unfolding next_block
  next_block-Stays delay [] s t x = x
  next_block-Stays delay (b ∷ bs) s t x = Stays-trans x (called-Stays t)

  either-Stays :
      (c : Bool) (s : App) (r q : App × Option Phase)
      → Stays s r.0
      → Stays s q.0
      → Stays s (if c then r else q).0
  either-Stays true s r q x y = x
  either-Stays false s r q x y = y

  pub thread_step-Stays : (p : Phase) (s : App) → Stays s (thread_step env stop args p s).0
  unfolding thread_step finish_sequence
  thread_step-Stays starting s =
      next_block-Stays _ args.config.blocks s _ (send_text-Stays env s args.client _)
  thread_step-Stays (waiting d b bs) s =
      let read = called-Stays s in
      let slept = Stays-trans read (called-Stays (called s)) in
      either-Stays (ltb (env.monotonic_ms s.calls) d) s _ _
        (either-Stays (s.sequence_abort || stop (suc s.calls)) s
          (called (called s), some (ending aborted)) (called (called s), some (waiting d b bs))
          slept slept)
        read
  thread_step-Stays (sending zero b bs) s = Stays-refl s
  thread_step-Stays (sending (suc n) b bs) s =
      let sent = send_command env s b.id b.value b.duration_ms in
      let put = send_command-Stays env s b.id b.value b.duration_ms in
      either-Stays sent.1 s _ _
        (next_block-Stays b.wait_ms bs s _ (Stays-trans put (logged-Stays sent.0 _ _))) put
  thread_step-Stays (ending e) s = send_text-Stays env s args.client _
  thread_step-Stays finishing s = Stays-same s _ refl refl refl refl refl

-- A step beside the callbacks: one of the main loop, or one of a thread, wherever it is.
pub data Aside (s : App) : App → Type 0 where
  routine : {t : App} → Routine s t → Aside s t
  work :
      (env : Env) (stop : ℕ → Bool) (args : WorkerArgs) (p : Phase)
      → Aside s (thread_step env stop args p s).0

-- What may come between two sections of a callback.
pub data Between (s : App) : App → Type 0 where
  nothing : Between s s
  and_then : {t u : App} → Between s t → Aside t u → Between s u

Aside-Stays : {s t : App} → Aside s t → Stays s t
Aside-Stays (routine r) = Routine-Stays r
Aside-Stays {s} (work env stop args p) = thread_step-Stays env stop args p s

pub Between-Stays : {s t : App} → Between s t → Stays s t
Between-Stays {s} nothing = Stays-refl s
Between-Stays (and_then b a) = Stays-trans (Between-Stays b) (Aside-Stays a)
