-- ===== src/Tests/Messages.antt =====
-- Frames and texts at concrete inputs.
use static_fire.Tests.Worlds.{calm, server}
use static_fire.Base.Int.{pos}
use static_fire.Base.{true, false, some, [], ◌∷◌, ◌≡◌, refl, arith}
use static_fire.Text.{lit}
use static_fire.App.{App}
use static_fire.Bridge.{
  broadcast_text, set_write_only, on_connect, on_disconnect, user_data, prefixed,
}
use static_fire.Bridge.Delivery.{
  received, set_write_only-broadcast, broadcast_text-once, on_disconnect-on_connect,
}
use static_fire.Bus.{command_frame, store_rx, format_dirty}
use static_fire.Bus.Received.{store_rx-command_frame}
use static_fire.Bus.Report.{report, format_dirty-report}

store_rx-command_frame_example :
    ((store_rx server (command_frame 0x101 42 0)).can_values 0x101 ≡ pos 42)
    × ((store_rx server (command_frame 0x101 42 0)).can_dirty 0x101 ≡ true)
store_rx-command_frame_example =
    store_rx-command_frame server 0x101 42 0 0x101 (omega arith) (omega arith)

abbrev heard : App
heard = store_rx server (command_frame 0x101 42 0)

format_dirty-report_example : format_dirty heard 64 ≡ report heard 64
format_dirty-report_example = format_dirty-report heard 64

abbrev crowd : App
crowd = record server {
  clients =
      record { client = 7; write_only = false } ∷ record { client = 8; write_only = false } ∷ [];
}

set_write_only-broadcast_example :
    received 8
      (broadcast_text calm
        (record crowd { clients = set_write_only 8 true crowd.clients })
        (lit "101#002a")
        true).events
    ≡ received 8 crowd.events
set_write_only-broadcast_example =
    set_write_only-broadcast calm crowd 8 (lit "101#002a") true ((refl, tt), (tt, tt))

broadcast_text-once_example :
    received 8 (broadcast_text calm crowd (lit "101#002a") true).events
    ≡ prefixed calm crowd (lit "101#002a") ∷ received 8 crowd.events
broadcast_text-once_example =
    broadcast_text-once calm crowd (lit "101#002a") true 8
      (record { client = 7; write_only = false } ∷ []) (record { client = 8; write_only = false })
      [] refl (refl, tt) refl tt (λ n. refl)

on_disconnect-on_connect_example :
    ((on_disconnect (on_connect calm crowd 9) 9).clients ≡ crowd.clients)
    × (calm.malloc_ok crowd.calls ≡ true
        → user_data 9 (on_connect calm crowd 9).clients
          ≡ some (record { client = 9; write_only = false }))
on_disconnect-on_connect_example = on_disconnect-on_connect calm crowd 9 (refl, (refl, tt))
