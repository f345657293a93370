-- ===== src/Firing/Thread.antt =====
-- src/control/firing_sequence.c: the same thread in steps, between which other threads may run. A
-- step has one access at most to what the threads share: a reading of the flags, a frame, a text, or
-- the end.
use static_fire.Base.{
  ℕ, zero, suc, ◌+◌, ◌%◌, ◌^◌, Bool, ◌||◌, Option, none, some, List, [], ◌∷◌, ltb, if◌then◌else◌,
  ◌++◌,
}
use static_fire.Text.Print.{decimal}
use static_fire.Text.{lit}
use static_fire.App.{App, FiringBlock, WorkerArgs, Env, logged, emit, called}
use static_fire.Bridge.{send_text}
use static_fire.Bus.{send_command, entry_text}
use static_fire.Firing.{abort_requested, finish_sequence}
use static_fire.Firing.Worker.{
  Ending, completed, aborted, failed, last_message, pre_delay, send_attempts,
}

-- Where the thread is: before its first text, in the loop of `wait_with_abort` with a deadline, in the
-- loop of `send_block` with the attempts that are left, before its last text, before
-- `finish_sequence`.
pub data Phase : Type 0 where
  starting : Phase
  waiting : ℕ → FiringBlock → List FiringBlock → Phase
  sending : ℕ → FiringBlock → List FiringBlock → Phase
  ending : Ending → Phase
  finishing : Phase

module _ (env : Env) where
  -- The head of the loop over the blocks: the deadline of the wait before the next one.
  unfoldable pub next_block : ℕ → List FiringBlock → App → App × Option Phase
  next_block delay_ms [] s = (s, some (ending completed))
  next_block delay_ms (b ∷ bs) s =
      (called s, some (waiting ((env.monotonic_ms s.calls + delay_ms) % 2 ^ 64) b bs))

  -- A step; `none` is the end of the thread. `stop` is what `app->stop` is, which a signal may set.
  unfoldable pub thread_step : (ℕ → Bool) → WorkerArgs → Phase → App → App × Option Phase
  unfolding next_block last_message pre_delay abort_requested
  thread_step stop args starting s =
      next_block (pre_delay args.config) args.config.blocks
        (send_text env s args.client args.started_message)
  thread_step stop args (waiting deadline b bs) s =
      if ltb (env.monotonic_ms s.calls) deadline
      then (if abort_requested s || stop (suc s.calls)
          then (called (called s), some (ending aborted))
          else (called (called s), some (waiting deadline b bs)))
      else (called s, some (sending send_attempts b bs))
  thread_step stop args (sending zero b bs) s = (s, some (ending failed))
  thread_step stop args (sending (suc n) b bs) s =
      let (s', done) = send_command env s b.id b.value b.duration_ms in
      let text = entry_text b.id b.value ++ (b'#' ∷ decimal b.duration_ms) in
      let next = next_block b.wait_ms bs (emit (logged (lit "CAN_TX") text) s') in
      if done then next else (s', some (sending n b bs))
  thread_step stop args (ending e) s =
      (send_text env s args.client (last_message e args), some finishing)
  thread_step stop args finishing s = (finish_sequence s, none)
