-- ===== src/Firing/Worker.antt =====
-- src/control/firing_sequence.c: the thread that sends the blocks of a sequence. What other threads
-- do to the two flags that it reads is outside: `interrupted` gives what
-- `abort_requested (app) || app->stop` is at each read.
use static_fire.Base.{
  Bytes, ℕ, zero, suc, ◌+◌, ◌%◌, ◌^◌, Bool, true, false, Option, none, some, List, [], ◌∷◌, ◌++◌,
  ltb, if◌then◌else◌,
}
use static_fire.Text.Print.{decimal}
use static_fire.Text.{lit}
use static_fire.App.{App, FiringBlock, FiringConfig, WorkerArgs, Env, logged, emit, called}
use static_fire.Bridge.{send_text}
use static_fire.Bus.{send_command, entry_text}
use static_fire.Firing.{finish_sequence}

abbrev pub tminus_ms : ℕ
tminus_ms = 10000

abbrev pub send_attempts : ℕ
send_attempts = 3

-- How a sequence ends; the three ways clear the flags and answer the client.
pub data Ending : Type 0 where
  completed aborted failed : Ending

unfoldable pub last_message : Ending → WorkerArgs → Bytes
last_message completed args = args.completed_message
last_message aborted args = lit "Firing sequence aborted by command or shutdown"
last_message failed args = args.failed_message

unfoldable pub pre_delay : FiringConfig → ℕ
pre_delay config = if config.drown_injector then 0 else tminus_ms

module _ (env : Env) where
  unfoldable pub try_send : ℕ → FiringBlock → App → Bool × App
  try_send zero b s = (false, s)
  try_send (suc n) b s =
      let (s', done) = send_command env s b.id b.value b.duration_ms in
      let again = try_send n b s' in
      let text = entry_text b.id b.value ++ (b'#' ∷ decimal b.duration_ms) in
      if done then (true, emit (logged (lit "CAN_TX") text) s') else again

  unfoldable pub send_block : FiringBlock → App → Bool × App
  unfolding try_send
  send_block b s = try_send send_attempts b s

  unfoldable pub ended : WorkerArgs → Option (Ending × App) → Option (Ending × App)
  unfolding last_message
  ended args none = none
  ended args (some (e, s)) =
      some (e, finish_sequence (send_text env s args.client (last_message e args)))

module _ (env : Env) (interrupted : ℕ → Bool) where
  -- The loop of `wait_with_abort`; `none` means that the fuel ran out.
  unfoldable pub wait_until : ℕ → ℕ → App → Option (Bool × App)
  wait_until zero deadline s = none
  wait_until (suc fuel) deadline s =
      let again = wait_until fuel deadline (called (called s)) in
      if ltb (env.monotonic_ms s.calls) deadline
      then (if interrupted (suc s.calls) then some (false, called (called s)) else again)
      else some (true, called s)

  unfoldable pub wait_with_abort : ℕ → ℕ → App → Option (Bool × App)
  unfolding wait_until
  wait_with_abort fuel delay_ms s =
      wait_until fuel ((env.monotonic_ms s.calls + delay_ms) % 2 ^ 64) (called s)

  -- The loop over the blocks, each behind its delay.
  unfoldable pub run_blocks : ℕ → ℕ → List FiringBlock → App → Option (Ending × App)
  run_blocks fuel delay_ms [] s = some (completed, s)
  run_blocks fuel delay_ms (b ∷ bs) s = elim (wait_with_abort fuel delay_ms s) [
    | none ↦ none
    | some (go_on, s') ↦
        let sent_it = send_block env b s' in
        let rest = run_blocks fuel b.wait_ms bs sent_it.1 in
        if go_on then (if sent_it.0 then rest else some (failed, sent_it.1)) else some (aborted, s')
  ]

  unfoldable pub sequence_worker : ℕ → WorkerArgs → App → Option (Ending × App)
  unfolding ended pre_delay
  sequence_worker fuel args s = ended env args (
      run_blocks fuel (pre_delay args.config) args.config.blocks
        (send_text env s args.client args.started_message))
