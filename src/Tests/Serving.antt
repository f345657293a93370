-- ===== src/Tests/Serving.antt =====
-- Commands, the timer and the main loop at concrete inputs.
use static_fire.Tests.Worlds.{calm, cfg, server, server-IsSafe}
use static_fire.Base.{Bytes, ℕ, true, some, [], ◌∷◌, ◌≡◌, refl, arith, inr, ◌++◌}
use static_fire.Text.{lit}
use static_fire.App.{hotfire, App, Env, init, threads}
use static_fire.Wiggle.Slots.{Idle}
use static_fire.State.{state_set, leave_prechilling, state_broadcast}
use static_fire.Wiggle.{wiggle_process}
use static_fire.Safety.Sections.{state, Sectioned-IsSafe}
use static_fire.Safety.Beside.{and_then, nothing, routine}
use static_fire.Safety.Routine.{tick}
use static_fire.Command.{command_handle_text}
use static_fire.Safety.{IsSafe}
use static_fire.Runtime.Shutdown.{IsStopped}
use static_fire.Runtime.{shutdown_runtime, on_timer}
use static_fire.Runtime.Timer.{Beats, on_timer_lem}
use static_fire.Runtime.Loop.{Ready, polled, interrupted, late_signal, main_loop}
use static_fire.Runtime.Loop.Ends.{main_loop_total}
use static_fire.Safety.Reach.{Reach, start, Reach-IsSafe}
use static_fire.Safety.Dispatch.{command_handle_text-IsSafe}
use static_fire.Safety.Prechilling.{command_handle_text-prechilling}
use static_fire.Safety.Abort.{command_handle_text-abort}
use static_fire.Command.Fields.{RawCan}
use static_fire.Command.Live.{raw_text}
use static_fire.Command.RoundTrip.{IsRaw}
use static_fire.Command.Sends.{with_frame, command_handle_text-raw_text}
use static_fire.App.View.{view}
use static_fire.Bridge.{send_text}
use static_fire.Safety.Gate.{Sets, state_set_lem}

abbrev wiggle_text : Bytes
wiggle_text = lit "WIGGLE|101#0010#0020#0000#250#5000"

-- A server that moves a valve.
abbrev busy : App
busy = command_handle_text calm server 7 wiggle_text

-- The main loop ticks while the state is HOTFIRE already and the valve is still active.
Sectioned-IsSafe_example : IsSafe (
    send_text calm
      (state_broadcast calm
        (leave_prechilling calm hotfire (wiggle_process calm (record busy { state = hotfire }))))
      7
      (lit "State set to HOTFIRE"))
Sectioned-IsSafe_example =
    Sectioned-IsSafe calm (state hotfire (and_then nothing (routine (tick calm))) nothing nothing)
      (command_handle_text-IsSafe calm server 7 wiggle_text server-IsSafe)

command_handle_text-prechilling_example :
    threads (command_handle_text calm server 7 (lit "DROWN#8765")).events ≡ threads server.events
unfolding init
command_handle_text-prechilling_example =
    command_handle_text-prechilling calm server 7 (lit "DROWN#8765") refl

-- A server that only reports.
abbrev watcher : App
watcher = record server { config = record cfg { read_only = true } }

command_handle_text-abort_example :
    ((command_handle_text calm server 7 (lit "CAN1|ABORT#8765")).sequence_abort ≡ true)
    × Idle (command_handle_text calm server 7 (lit "CAN1|ABORT#8765")).wiggles
unfolding init
command_handle_text-abort_example =
    command_handle_text-abort calm server 7 (lit "CAN1|ABORT#8765") refl refl (inr refl)

-- In HOTFIRE, where a raw command may move a valve.
abbrev armed : App
armed = record server { state = hotfire }

abbrev open_valve : RawCan
open_valve = record { id = 0x101; value = 16; duration_ms = 500; has_duration = true }

open_valve-IsRaw : IsRaw open_valve
open_valve-IsRaw = record {
  id_fits = omega arith;
  value_fits = omega arith;
  duration_fits = omega arith;
  no_duration = λ e. absurd (cc e);
}

command_handle_text-raw_text_example :
    view (command_handle_text calm armed 7 (raw_text open_valve))
    ≡ with_frame open_valve (view armed)
unfolding init
command_handle_text-raw_text_example =
    command_handle_text-raw_text calm armed 7 open_valve refl refl refl refl refl refl
      open_valve-IsRaw (omega arith)

state_set_lem_example : Sets server hotfire (state_set calm server hotfire)
state_set_lem_example = state_set_lem calm server hotfire

-- Five seconds behind.
abbrev late : Env
late = record calm { monotonic_ms = λ n. 5000 }

on_timer_lem_example :
    IsSafe (on_timer late 6 server 0).0
    × Beats late 5000 (wiggle_process late server) 0 (on_timer late 6 server 0)
unfolding init
on_timer_lem_example = on_timer_lem late 6 server 0 (omega arith) (omega arith) server-IsSafe

-- The first timer event finds the heartbeat due; the second is the last that is handled.
abbrev watched : App
watched = record server { timer_fd = some 5; epoll_fd = some 4 }

watched-Reach : Reach cfg watched
unfolding init
watched-Reach = start watched refl refl refl refl

abbrev timer_event : Ready
timer_event = record { fd = 5; reads = [] }

-- The signal comes while the loop waits for its second batch.
main_loop_total_example :
    (r : App × ℕ) × (main_loop late 6
        ((polled (timer_event ∷ []) ∷ []) ++ (late_signal (timer_event ∷ []) ∷ interrupted ∷ []))
        watched
        0
      ≡ some r)
    × (main_loop late 6
          ((polled (timer_event ∷ []) ∷ []) ++ (late_signal (timer_event ∷ []) ∷ []))
          watched
          0
        ≡ some r)
    × IsSafe r.0
    × IsStopped (shutdown_runtime late r.0)
main_loop_total_example =
    main_loop_total late 6 (polled (timer_event ∷ []) ∷ []) (late_signal (timer_event ∷ []))
      (interrupted ∷ []) watched 0 refl (omega arith) (λ n. omega arith)
      (Reach-IsSafe cfg watched-Reach)
