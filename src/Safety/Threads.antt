-- ===== src/Safety/Threads.antt =====
-- The callbacks and the main loop, and the threads that `firing_sequence_start` creates, whose steps
-- come in any order between theirs. What a callback or the main loop serves at once is one step.
use static_fire.Base.{
  ℕ, zero, suc, Bool, true, false, Option, none, some, List, [], ◌∷◌, ◌++◌, ◌≡◌, refl, ◌∙◌, sym, ap,
  ◌⊎◌, inl, inr, map, append_self, append_one, append_only, append_none, if◌then◌else◌,
}
use static_fire.App.View.{View, view}
use static_fire.App.{App, AppConfig, FiringBlock, WorkerArgs, Env, init, threads, called}
use static_fire.Bus.{send_command}
use static_fire.Bus.Frames.{send_command-Wrote}
use static_fire.Firing.{finish_sequence}
use static_fire.Firing.Thread.{
  Phase, starting, waiting, sending, ending, finishing, next_block, thread_step,
}
use static_fire.Firing.Worker.{aborted, send_attempts}
use static_fire.Safety.Claims.{
  Kept, Claimed, Kept-refl, Kept-trans, Kept-Wrote, called-Kept, logged-Kept,
}
use static_fire.Safety.Claims.Steps.{send_text-Kept}
use static_fire.Safety.Reach.{Serve}
use static_fire.Safety.Serves.{Serve-Claimed}

-- A thread that was created and has not ended.
pub record Job : Type 0 where
  pub args : WorkerArgs
  pub phase : Phase

pub record World : Type 0 where
  pub server : App
  pub jobs : List Job

abbrev pub begun : WorkerArgs → Job
begun args = record { args = args; phase = starting }

abbrev pub resumed : WorkerArgs → Option Phase → List Job → List Job
resumed args none rest = rest
resumed args (some phase) rest = record { args = args; phase = phase } ∷ rest

-- Either something is served, and the threads that this creates begin, or one of the threads takes a
-- step.
pub data Turn (w : World) : World → Type 0 where
  serve :
      {t : App} (new : List WorkerArgs)
      → Serve w.server t
      → threads t.events ≡ new ++ threads w.server.events
      → Turn w (record { server = t; jobs = map begun new ++ w.jobs })
  run :
      (env : Env) (stop : ℕ → Bool) (front back : List Job) (j : Job)
      → w.jobs ≡ front ++ (j ∷ back)
      → Turn w (record {
        server = (thread_step env stop j.args j.phase w.server).0;
        jobs = front ++ resumed j.args (thread_step env stop j.args j.phase w.server).1 back;
      })

-- From `app_context_init`, with the descriptors that `init_runtime` and `ws_bridge_start` set.
pub data Runs (cfg : AppConfig) : World → Type 0 where
  start :
      (s : App)
      → view s ≡ record (view (init cfg)) { can_fd = s.can_fd; ws = s.ws }
      → Runs cfg (record { server = s; jobs = [] })
  turn : {w v : World} → Runs cfg w → Turn w v → Runs cfg v

-- A step of a thread either ends it, and clears the flags, or leaves the threads and the flags.
abbrev pub Goes : App → App × Option Phase → Type 0
Goes s r = Kept s r.0 × ((p : Phase) × (r.1 ≡ some p))

abbrev pub Advances : App → App × Option Phase → Type 0
Advances s r = (r ≡ (finish_sequence s, none)) ⊎ Goes s r

module _ (env : Env) (stop : ℕ → Bool) (args : WorkerArgs) where
  next_block-Goes :
      (delay : ℕ) (bs : List FiringBlock) (s t : App)
      → Kept s t
      → Goes s (next_block env delay bs t)
  unfolding next_block
  next_block-Goes delay [] s t k = (k, (_, refl))
  next_block-Goes delay (b ∷ bs) s t k = (Kept-trans k (called-Kept t), (_, refl))

  wait-Goes :
      (ahead asked : Bool) (d : ℕ) (b : FiringBlock) (bs : List FiringBlock) (s : App)
      → Goes s (
          if ahead
          then (if asked
              then (called (called s), some (ending aborted))
              else (called (called s), some (waiting d b bs)))
          else (called s, some (sending send_attempts b bs)))
  wait-Goes true true d b bs s = (Kept-trans (called-Kept s) (called-Kept (called s)), (_, refl))
  wait-Goes true false d b bs s = (Kept-trans (called-Kept s) (called-Kept (called s)), (_, refl))
  wait-Goes false asked d b bs s = (called-Kept s, (_, refl))

  either-Goes :
      (c : Bool) (s : App) (r q : App × Option Phase)
      → Goes s r
      → Goes s q
      → Goes s (if c then r else q)
  either-Goes true s r q x y = x
  either-Goes false s r q x y = y

  try-Goes :
      (n : ℕ) (b : FiringBlock) (bs : List FiringBlock) (s : App)
      → Goes s (thread_step env stop args (sending n b bs) s)
  unfolding thread_step
  try-Goes zero b bs s = (Kept-refl s, (_, refl))
  try-Goes (suc n) b bs s =
      let sent = send_command env s b.id b.value b.duration_ms in
      let k = Kept-Wrote s sent.0 (send_command-Wrote env s b.id b.value b.duration_ms) in
      either-Goes sent.1 s _ _
        (next_block-Goes b.wait_ms bs s _ (Kept-trans k (logged-Kept sent.0 _ _))) (k, (_, refl))

  pub thread_step-Advances : (p : Phase) (s : App) → Advances s (thread_step env stop args p s)
  unfolding thread_step
  thread_step-Advances starting s =
      inr (next_block-Goes _ args.config.blocks s _ (send_text-Kept env s args.client _))
  thread_step-Advances (waiting d b bs) s = inr (wait-Goes _ _ d b bs s)
  thread_step-Advances (sending n b bs) s = inr (try-Goes n b bs s)
  thread_step-Advances (ending e) s = inr (send_text-Kept env s args.client _, (_, refl))
  thread_step-Advances finishing s = inl refl

-- One thread and the active flag, or neither.
abbrev pub Exclusive : World → Type 0
Exclusive w =
    ((w.jobs ≡ []) × (w.server.sequence_active ≡ false))
    ⊎ ((j : Job) × (w.jobs ≡ j ∷ []) × (w.server.sequence_active ≡ true))

-- Where there is one thread, any step that a thread takes is its own.
data OneStep (w : World) (front back : List Job) (j : Job) : Type 0 where
  one_step :
      front ≡ []
      → back ≡ []
      → w.jobs ≡ j ∷ []
      → w.server.sequence_active ≡ true
      → OneStep w front back j

found :
    (w : World) (front back : List Job) (j : Job)
    → w.jobs ≡ front ++ (j ∷ back)
    → Exclusive w
    → OneStep w front back j
found w front back j e (inl (none_left, _)) = absurd (append_none front back j (sym none_left ∙ e))
found w front back j e (inr (i, one, on)) =
    let (f, b, same) = append_only front back i j (sym one ∙ e) in
    one_step f b (one ∙ ap (λ (k : Job). k ∷ []) same) on

kept_jobs :
    (w : World) (t : App)
    → t.sequence_active ≡ w.server.sequence_active
    → Exclusive w
    → Exclusive (record { server = t; jobs = w.jobs })
kept_jobs w t e (inl (none_left, off)) = inl (none_left, e ∙ off)
kept_jobs w t e (inr (j, one, on)) = inr (j, one, e ∙ on)

idle_jobs : (w : World) → w.server.sequence_active ≡ false → Exclusive w → w.jobs ≡ []
idle_jobs w off (inl (none_left, _)) = none_left
idle_jobs w off (inr (_, _, on)) = absurd (cc (off, on))

served :
    (w : World) (t : App) (new : List WorkerArgs)
    → Claimed w.server t
    → threads t.events ≡ new ++ threads w.server.events
    → Exclusive w
    → Exclusive (record { server = t; jobs = map begun new ++ w.jobs })
served w t new (inl k) e x =
    let none_new = append_self new _ (sym k.same_threads ∙ e) in
    rw none_new (kept_jobs w t k.same_active x)
served w t new (inr k) e x =
    let (b, one) = append_one new _ k.new (sym k.one_thread ∙ e) in
    let none_left = idle_jobs w k.idle_before x in
    rw one (inr (begun b, ap (λ (l : List Job). begun b ∷ l) none_left, k.active_now))

stepped :
    (front back : List Job) (j : Job) (s : App) (r : App × Option Phase)
    → front ≡ []
    → back ≡ []
    → s.sequence_active ≡ true
    → Advances s r
    → Exclusive (record { server = r.0; jobs = front ++ resumed j.args r.1 back })
unfolding finish_sequence
stepped front back j s r f b on (inl e) = rw (f, b, e) (inl (refl, refl))
stepped front back j s r f b on (inr (k, (p, e))) = rw (f, b, e) (inr (_, refl, k.same_active ∙ on))

Turn-Exclusive : {w v : World} → Turn w v → Exclusive w → Exclusive v
Turn-Exclusive {w} (serve {t} new st e) x = served w t new (Serve-Claimed st) e x
Turn-Exclusive {w} (run env stop front back j e) x = elim (found w front back j e x) [
  | one_step f b _ on ↦
      stepped front back j w.server _ f b on (thread_step-Advances env stop j.args j.phase w.server)
]

-- Whatever clients send, and however the threads take turns: there is never more than one thread of a
-- sequence, and the active flag is set exactly while there is one.
pub Runs-Exclusive : (cfg : AppConfig) {w : World} → Runs cfg w → Exclusive w
unfolding view init
Runs-Exclusive cfg (start s e) = inl (refl, ap (λ (v : View). v.sequence_active) e)
Runs-Exclusive cfg (turn r t) = Turn-Exclusive t (Runs-Exclusive cfg r)
