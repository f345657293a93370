-- ===== src/Boot/Main.antt =====
-- src/main.c and `app_config_print` of src/app/config.c: what `main` does before its loop.
use static_fire.Base.Int.{ℤ, pos, negsuc}
use static_fire.Base.{
  Bytes, suc, Bool, true, false, Option, none, some, List, [], ◌∷◌, ◌++◌, if◌then◌else◌,
}
use static_fire.App.{AppConfig, Env, init}
use static_fire.Boot.Interface.{Host, Starting}
use static_fire.Boot.{init_runtime, ws_bridge_start, shut}
use static_fire.Config.{
  Source, Outcome, accepted, rejected, usage, default_config, app_config_parse,
}
use static_fire.Logger.Maintenance.{logger_open}
use static_fire.Logger.{Dirent, Logger, Outside}
use static_fire.Text.Print.{decimal}
use static_fire.Text.{lit}

-- "%d"
unfoldable pub signed_decimal : ℤ → Bytes
signed_decimal (pos n) = decimal n
signed_decimal (negsuc n) = b'-' ∷ decimal (suc n)

unfoldable pub yes_no : Bool → Bytes
yes_no true = lit "yes"
yes_no false = lit "no"

-- The lines printed, in their order.
unfoldable pub app_config_print : AppConfig → List Bytes
unfolding signed_decimal yes_no
app_config_print c =
    (lit "WebSocket port: " ++ decimal c.ws_port)
    ∷ (lit "Max clients: " ++ signed_decimal c.max_clients)
    ∷ (lit "Read only: " ++ yes_no c.read_only)
    ∷ (lit "Testing mode: " ++ yes_no c.testing_mode)
    ∷ (lit "Logging: " ++ yes_no c.logging_enabled)
    ∷ (lit "CAN interface: " ++ c.can_ifname)
    ∷ (lit "CAN bitrate: " ++ decimal c.can_bitrate)
    ∷ (lit "CAN auto-config: " ++ yes_no c.auto_config_can)
    ∷ (lit "Tick interval: " ++ (signed_decimal c.tick_interval_ms ++ lit " ms"))
    ∷ (if c.logging_enabled then (lit "Log dir: " ++ c.log_dir) ∷ [] else [])

-- Lines that are printed, onto those before, the newest first.
abbrev pub print_onto : List Bytes → List Bytes → List Bytes
print_onto [] old = old
print_onto (l ∷ ls) old = print_onto ls (l ∷ old)

-- The log behind `memset`, before the entries of its directory.
abbrev pub zero_logger : List Dirent → Logger
zero_logger entries = record {
  enabled = false;
  fp = none;
  log_dir = [];
  current_path = [];
  next_maintenance_ms = 0;
  cyclic_mode = false;
  cyclic_write_offset = 0;
  cyclic_capacity_bytes = 0;
  entries = entries;
  made = [];
  unlinked = [];
  calls = 0;
}

unfoldable pub initial : AppConfig → Logger → Starting
unfolding init app_config_print
initial cfg logger = record {
  app = init cfg;
  logger = logger;
  printed = print_onto (app_config_print cfg) [];
  commands = [];
  opened = [];
  closed = [];
  watched = [];
  armed = none;
  calls = 0;
}

-- How far `main` comes: it exits with the usage or with the refusal of the configuration, it gives up
-- behind a step that failed, or it listens and enters its loop.
pub data Booted : Type 0 where
  usage_shown invalid_arguments : Booted
  gave_up listening : Starting → Booted

-- The lines printed before the loop, the newest first.
unfoldable pub listening_lines : AppConfig → List Bytes
listening_lines c =
    let first =
      lit "Listening on ws://0.0.0.0:"
      ++ (decimal c.ws_port ++ (lit " using CAN interface " ++ c.can_ifname)) in
    let second = lit "Testing mode enabled: CAN, heartbeat, and wiggle runtime are disabled" in
    if c.testing_mode then second ∷ first ∷ [] else first ∷ []

module _ (env : Env) (out : Outside) (host : Host) where
  unfoldable pub after_ws : Starting × Bool → Booted
  unfolding listening_lines
  after_ws (s, false) = gave_up (shut env s)
  after_ws (s, true) = listening (record s { printed = listening_lines s.app.config ++ s.printed })

  unfoldable pub after_init : Starting × Bool → Booted
  unfolding after_ws
  after_init (s, false) = gave_up (shut env s)
  after_init (s, true) = after_ws (ws_bridge_start host s)

  unfoldable pub after_logger : AppConfig → Option (Logger × Bool) → Option Booted
  unfolding after_init initial
  after_logger cfg none = none
  after_logger cfg (some (logger, false)) = some (gave_up (initial cfg logger))
  after_logger cfg (some (logger, true)) =
      some (after_init (init_runtime host (initial cfg logger)))

  unfoldable pub start : List Dirent → Outcome → Option Booted
  unfolding after_logger
  start entries usage = some usage_shown
  start entries rejected = some invalid_arguments
  start entries (accepted cfg) =
      after_logger cfg (logger_open out cfg.logging_enabled cfg.log_dir (zero_logger entries))

  -- `main` as far as its loop; `none` means that the fuel of the log's deletions ran out.
  unfoldable pub boot : (Bytes → Source) → List Dirent → List Bytes → Option Booted
  unfolding start
  boot files entries args = start entries (app_config_parse files default_config args)
