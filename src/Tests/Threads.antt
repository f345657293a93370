-- ===== src/Tests/Threads.antt =====
-- The main loop and the thread of a sequence at concrete inputs.
use static_fire.Tests.Worlds.{calm, cfg, server}
use static_fire.Base.{
  Bytes, ℕ, Bool, true, false, List, [], ◌∷◌, ◌++◌, ◌≡◌, refl, sym, append-nil, map, ap, ◌∙◌,
}
use static_fire.Text.{lit, equal, starts_with, c_string, tokens, after_first}
use static_fire.App.{App, Env, FiringBlock, WorkerArgs, threads, init}
use static_fire.App.View.{view}
use static_fire.Firing.Thread.{starting, next_block, thread_step}
use static_fire.Message.{text_frame, on_message, on_text}
use static_fire.Command.{
  command_handle_text, handle_read_toggle, strip_can_prefix, handle_control, handle_operation,
  handle_hotfire,
}
use static_fire.Command.Live.{
  handle_abort, handle_state_command, state_command, handle_set_valve, handle_wiggle_stop,
  handle_wiggle, handle_drown, handle_fire, fire, started_message,
}
use static_fire.State.{state_set, leave_prechilling, state_broadcast}
use static_fire.Wiggle.{wiggle_stop_all, stop_slots, deactivate_slot}
use static_fire.Bridge.{send_text, broadcast_text, user_data}
use static_fire.Firing.{
  request_abort, worker_args, firing_sequence_parse, firing_sequence_start, parse_block,
  parse_blocks,
}
use static_fire.Text.Scan.{sscanf}
use static_fire.Command.Fields.{is_wiggle}
use static_fire.Safety.{IsSafe}
use static_fire.Safety.Aborting.{GivesUp, Meanwhile, here, later, Runs-aborted}
use static_fire.Safety.Process.{LoopRuns, Runs-IsSafe}
use static_fire.Runtime.Loop.{Happening, main_loop}
use static_fire.Safety.Reach.{message}
use static_fire.Safety.Threads.{
  Job, World, Exclusive, Runs, start, turn, serve, run, begun, resumed,
}

abbrev says : App → Bytes → App
says s text = on_message calm s 7 text_frame text

abbrev hot : App
hot = says server (lit "STATE#HOTFIRE")

abbrev firing : App
firing = says hot (lit "FIRE#8765|101#0010#100")

abbrev stopping : App
stopping = says firing (lit "ABORT#8765")

-- A thread for each that was created.
abbrev world : App → World
world s = record { server = s; jobs = map begun (threads s.events) ++ [] }

hot-none : threads hot.events ≡ []
unfolding on_message on_text command_handle_text handle_read_toggle strip_can_prefix handle_control
    handle_abort handle_state_command state_command state_set leave_prechilling wiggle_stop_all
    stop_slots deactivate_slot state_broadcast broadcast_text send_text lit equal starts_with init
    user_data c_string
hot-none = refl

hot-Runs : Runs cfg (record { server = hot; jobs = [] })
unfolding init view
hot-Runs =
    turn (start server refl) (serve [] (message calm 7 text_frame (lit "STATE#HOTFIRE")) hot-none)

firing-Runs : Runs cfg (world firing)
firing-Runs =
    let new = threads firing.events in
    turn hot-Runs (
      serve new (message calm 7 text_frame (lit "FIRE#8765|101#0010#100"))
        (sym (append-nil new) ∙ ap (λ (l : List WorkerArgs). new ++ l) (sym hot-none)))

Runs-IsSafe_example :
    IsSafe firing
    × Exclusive (world firing)
    × ((env : Env) (fuel : ℕ) (hs : List Happening) (next : ℕ)
        → LoopRuns cfg (world firing).jobs (main_loop env fuel hs firing next))
Runs-IsSafe_example = Runs-IsSafe cfg firing-Runs

abbrev one_block : FiringBlock
one_block = record { id = 0x101; value = 0x10; duration_ms = 100; wait_ms = 0 }

-- What the thread of the sequence was given.
abbrev args : WorkerArgs
args =
    worker_args 7 (record { blocks = one_block ∷ []; drown_injector = false })
      (started_message (record { blocks = one_block ∷ []; drown_injector = false }))
      (lit "Firing sequence completed") (lit "Firing sequence failed to start")

firing-one : threads firing.events ≡ args ∷ []
unfolding on_message on_text command_handle_text handle_read_toggle strip_can_prefix handle_control
    handle_abort handle_state_command state_command state_set leave_prechilling wiggle_stop_all
    stop_slots deactivate_slot state_broadcast broadcast_text send_text lit equal starts_with init
    user_data c_string handle_set_valve handle_operation handle_wiggle_stop handle_wiggle
    handle_hotfire handle_drown handle_fire fire firing_sequence_parse firing_sequence_start
    parse_blocks parse_block tokens sscanf after_first is_wiggle worker_args
firing-one = refl

stopping-Asked :
    (threads stopping.events ≡ threads firing.events)
    × (stopping.sequence_active ≡ true)
    × (stopping.sequence_abort ≡ true)
unfolding on_message on_text command_handle_text handle_read_toggle strip_can_prefix handle_control
    handle_abort handle_state_command state_command state_set leave_prechilling wiggle_stop_all
    stop_slots deactivate_slot state_broadcast broadcast_text send_text lit equal starts_with init
    user_data c_string handle_set_valve handle_operation handle_wiggle_stop handle_wiggle
    handle_hotfire handle_drown handle_fire fire firing_sequence_parse firing_sequence_start
    parse_blocks parse_block tokens sscanf after_first is_wiggle worker_args request_abort
stopping-Asked = (refl, refl, refl)

abbrev asked : World
asked = record { server = stopping; jobs = map begun (threads firing.events) ++ [] }

stopping-Runs : Runs cfg asked
stopping-Runs =
    turn firing-Runs (serve [] (message calm 7 text_frame (lit "ABORT#8765")) stopping-Asked.0)

never : ℕ → Bool
never n = false

-- The first step of the thread, behind the abort.
abbrev waited : World
waited = record {
  server = (thread_step calm never args starting stopping).0;
  jobs = resumed args (thread_step calm never args starting stopping).1 [];
}

waited-active : waited.server.sequence_active ≡ true
unfolding on_message on_text command_handle_text handle_read_toggle strip_can_prefix handle_control
    handle_abort handle_state_command state_command state_set leave_prechilling wiggle_stop_all
    stop_slots deactivate_slot state_broadcast broadcast_text send_text lit equal starts_with init
    user_data c_string handle_set_valve handle_operation handle_wiggle_stop handle_wiggle
    handle_hotfire handle_drown handle_fire fire firing_sequence_parse firing_sequence_start
    parse_blocks parse_block tokens sscanf after_first is_wiggle worker_args request_abort
    thread_step next_block
waited-active = refl

stopping-waited : Meanwhile asked waited
stopping-waited =
    later here (run calm never [] [] (begun args) (ap (λ l. map begun l ++ []) firing-one))
      waited-active

Runs-aborted_example :
    (waited.server.sequence_abort ≡ true) × ((j : Job) × (waited.jobs ≡ j ∷ []) × GivesUp waited j)
Runs-aborted_example =
    Runs-aborted cfg stopping-Runs stopping-Asked.1 stopping-Asked.2 stopping-waited
