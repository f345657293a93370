-- ===== src/Tests/Sequences.antt =====
-- Firing sequences at concrete inputs.
use static_fire.Tests.Worlds.{calm, server}
use static_fire.Base.{
  ℕ, ◌≤◌, Bool, true, false, Option, none, some, [], ◌∷◌, ◌≡◌, refl, inl, arith, All, length, ◌++◌,
  ◌*◌, ltb, if◌then◌else◌,
}
use static_fire.Text.{lit, tokens, after_first}
use static_fire.Text.Scan.{sscanf}
use static_fire.App.{App, Env, frames, FiringBlock, FiringConfig, WorkerArgs, init}
use static_fire.Bridge.{send_text}
use static_fire.Bus.{send_command}
use static_fire.Firing.{firing_sequence_parse, firing_sequence_start, parse_block, parse_blocks}
use static_fire.Firing.Parse.{IsBlock, firing_sequence_parse-IsBlock, parse_blocks-append}
use static_fire.Firing.Start.{Claims, firing_sequence_start-Claims}
use static_fire.Firing.Worker.{
  Ending, completed, aborted, wait_with_abort, send_block, run_blocks, sequence_worker,
}
use static_fire.Firing.Alone.{Ends, flag, thread_step-Ends}
use static_fire.Firing.Thread.{starting}
use static_fire.Firing.Order.{Progress, sequence_worker-Progress}
use static_fire.Firing.Waits.{IsClock, sequence_worker_total}
use static_fire.Firing.Unaborted.{run_blocks-completed}
use static_fire.Firing.Order.{sent_onto}

abbrev one_block : FiringBlock
one_block = record { id = 0x101; value = 0x10; duration_ms = 100; wait_ms = 0 }

abbrev job : WorkerArgs
job = record {
  client = 7;
  config = record { blocks = one_block ∷ one_block ∷ []; drown_injector = true };
  started_message = [];
  completed_message = [];
  failed_message = [];
}

abbrev never : ℕ → Bool
never n = false

abbrev always : ℕ → Bool
always n = true

-- A clock that stands still while the thread begins and sends its first block, and flags that are first
-- read in the wait behind that block, and are clear from then on.
abbrev paused : Env
paused = record calm { monotonic_ms = λ n. if ltb n 6 then 0 else 10 * n }

abbrev read_later : ℕ → Bool
read_later n = ltb n 6

paused-IsClock : IsClock paused read_later
paused-IsClock = record { steady = λ n. ground arith; sleeps = λ n h. inl (ground arith) }

-- The first of the blocks is followed by a wait.
abbrev waits : WorkerArgs
waits = record job {
  config = record {
    blocks = record one_block { wait_ms = 300 } ∷ one_block ∷ [];
    drown_injector = true;
  };
}

sequence_worker_total_example :
    (r : Ending × App) × (sequence_worker paused read_later 6555 waits server ≡ some r)
sequence_worker_total_example =
    sequence_worker_total paused read_later waits server paused-IsClock
      (omega arith, (omega arith, tt))

run_blocks-completed_example :
    (t : App) × (run_blocks calm always 1 0 (one_block ∷ one_block ∷ []) server
      ≡ some (completed, t))
    × (frames t.events ≡ sent_onto (one_block ∷ one_block ∷ []) (frames server.events))
run_blocks-completed_example =
    run_blocks-completed calm always 0 0 (one_block ∷ one_block ∷ []) server refl
      ((refl, omega arith), ((refl, omega arith), tt)) (λ n. omega arith) (λ n. refl) refl

firing_sequence_start-Claims_example : Claims server job (firing_sequence_start calm server job)
firing_sequence_start-Claims_example = firing_sequence_start-Claims calm server job

-- The two blocks of the text.
abbrev two_blocks : FiringConfig
two_blocks = record {
  blocks = one_block ∷ record { id = 0x102; value = 0x20; duration_ms = 50; wait_ms = 300 } ∷ [];
  drown_injector = false;
}

two_blocks-parsed :
    firing_sequence_parse true (lit "FIRE#8765|101#0010#100|102#0020#50#300") ≡ some two_blocks
unfolding firing_sequence_parse parse_blocks parse_block lit after_first tokens sscanf
two_blocks-parsed = refl

firing_sequence_parse-IsBlock_example :
    (All IsBlock two_blocks.blocks × (length two_blocks.blocks ≤ 24))
    × (1 ≤ length two_blocks.blocks)
    × (two_blocks.drown_injector ≡ false)
firing_sequence_parse-IsBlock_example =
    firing_sequence_parse-IsBlock true (lit "FIRE#8765|101#0010#100|102#0020#50#300")
      two_blocks-parsed

parse_blocks-append_example :
    parse_blocks 1 ((lit "101#0010#100" ∷ []) ++ (lit "junk" ∷ []))
    ≡ parse_blocks 1 (lit "101#0010#100" ∷ [])
parse_blocks-append_example =
    parse_blocks-append 1 (lit "101#0010#100" ∷ []) (lit "junk" ∷ []) (omega arith)

ending : Option (Ending × App) → Ending × App
ending none = (aborted, server)
ending (some r) = r

-- The server when the thread is done.
abbrev done : App
done = (ending (sequence_worker calm never 10 job server)).1

done-run : sequence_worker calm never 10 job server ≡ some (completed, done)
unfolding sequence_worker ending run_blocks wait_with_abort send_text init send_block send_command
done-run = refl

sequence_worker-Progress_example :
    Progress calm never job.config.blocks server completed done
    × (done.sequence_active ≡ false)
    × (done.sequence_abort ≡ false)
sequence_worker-Progress_example = sequence_worker-Progress calm never 10 job server done-run

thread_step-Ends_example :
    (r : Ending × App) × (sequence_worker paused
        (flag paused read_later waits server.sequence_abort)
        6555
        waits
        server
      ≡ some r)
    × Ends paused read_later waits r.1 starting server
unfolding init
thread_step-Ends_example =
    thread_step-Ends paused read_later waits server paused-IsClock (omega arith, (omega arith, tt))
