-- ===== src/Tests/Valves.antt =====
-- Moving valves and the shutdown at concrete inputs.
use static_fire.Tests.Worlds.{calm, server, server-IsSafe}
use static_fire.Base.{true, ◌∷◌, ◌≡◌, refl, arith, All, replicate}
use static_fire.App.{App, init, zero_slot, prechilling}
use static_fire.App.{frames}
use static_fire.Wiggle.{wiggle_start, wiggle_stop, wiggle_stop_all, wiggle_process}
use static_fire.Wiggle.Slots.{IsTable}
use static_fire.Wiggle.Start.{Starts, wiggle_start-Starts}
use static_fire.Wiggle.Stop.{Stops, wiggle_stop-Stops}
use static_fire.Wiggle.Lookup.{lookup}
use static_fire.Wiggle.Refines.{Op, start, run, Refined, run-Refined}
use static_fire.Wiggle.Offered.{offered, tick_frames}
use static_fire.Wiggle.Ticked.{AllTicked}
use static_fire.Wiggle.Process.{UpToDate, wiggle_process_lem}
use static_fire.Runtime.Shutdown.{IsStopped, shutdown_runtime-IsStopped}
use static_fire.Wiggle.Exits.{exits, wiggle_stop_all-exits}
use static_fire.Runtime.{shutdown_runtime}

wiggle_start-Starts_example :
    Starts calm server 0x101 16 32 0 250 5000 (wiggle_start calm server 0x101 16 32 0 250 5000)
wiggle_start-Starts_example =
    wiggle_start-Starts calm server 0x101 16 32 0 250 5000 server-IsSafe.sound.table

abbrev wiggling : App
wiggling = (wiggle_start calm server 0x101 16 32 0 250 5000).0

wiggle_stop-Stops_example : Stops calm wiggling 0x101 (wiggle_stop calm wiggling 0x101)
wiggle_stop-Stops_example = wiggle_stop-Stops calm wiggling 0x101 wiggle_start-Starts_example.0

-- One valve is due.
abbrev moving : App
moving = record server {
  wiggles =
      record {
        id = 0x101;
        start_value = 16;
        end_value = 32;
        current_value = 16;
        exit_value = 0;
        period_ms = 250;
        total_duration_ms = 0;
        next_toggle_ms = 0;
        stop_time_ms = 0;
        active = true;
      }
      ∷ replicate 15 zero_slot;
}

moving-IsTable : IsTable moving.wiggles
moving-IsTable = record { sixteen = refl; slots = ground arith; distinct = ground arith }

abbrev another : Op
another = start 0x102 1 2 0 100 0

run-Refined_example :
    IsTable (run calm another moving).0.wiggles
    × Refined 0 prechilling another
        (lookup moving.wiggles)
        (lookup (run calm another moving).0.wiggles, (run calm another moving).1)
unfolding init
run-Refined_example = run-Refined calm another moving moving-IsTable

wiggle_process_lem_example :
    IsTable (wiggle_process calm moving).wiggles
    × AllTicked 0 moving.wiggles (wiggle_process calm moving).wiggles
    × All (UpToDate 0) (wiggle_process calm moving).wiggles
    × (offered (wiggle_process calm moving).events
        ≡ tick_frames moving.can_fd 0 moving.wiggles (offered moving.events))
unfolding init
wiggle_process_lem_example = wiggle_process_lem calm moving refl moving-IsTable (ground arith)

wiggle_stop_all-exits_example :
    frames (wiggle_stop_all calm moving true).events ≡ exits moving.wiggles (frames moving.events)
wiggle_stop_all-exits_example = wiggle_stop_all-exits calm moving refl (λ n. refl) moving-IsTable

shutdown_runtime-IsStopped_example :
    IsStopped (shutdown_runtime calm moving)
    × (frames (shutdown_runtime calm moving).events ≡ exits moving.wiggles (frames moving.events))
shutdown_runtime-IsStopped_example =
    shutdown_runtime-IsStopped calm moving refl (λ n. refl) moving-IsTable
