-- ===== src/Tests/Worlds.antt =====
-- What the outside answers in the tests.
use static_fire.Base.Int.{pos}
use static_fire.Base.{Bytes, ℕ, ◌*◌, true, false, some, [], refl}
use static_fire.App.{Env, App, AppConfig, init}
use static_fire.Safety.{IsSafe}
use static_fire.Safety.Reach.{Reach, start, Reach-IsSafe}
use static_fire.Logger.{Outside}

-- Every call succeeds, and the clock gains ten milliseconds at each.
abbrev pub calm : Env
calm = record {
  write_ok = λ _. true;
  monotonic_ms = λ n. 10 * n;
  realtime_ns = λ n. 5;
  is_connected = λ _ _. true;
  handshake_done = λ _ _. true;
  malloc_ok = λ _. true;
  thread_ok = λ _. true;
  error_text = λ _. [];
}

-- A disk on which everything succeeds, with so many percent free and this name for a new log.
abbrev pub disk : ℕ → Bytes → Outside
disk free name = record {
  mkdir_ok = λ _. true;
  statvfs = λ _. some (free, 100);
  scan_ok = λ _. true;
  unlink_ok = λ _. true;
  fopen_ok = λ _. true;
  seek_ok = λ _. true;
  flush_ok = λ _. true;
  fstat_ok = λ _. true;
  malloc_ok = λ _. true;
  taken = λ _. 1000;
  monotonic_ms = λ n. n;
  realtime_ns = λ _. 5;
  file_name = λ _. some name;
}

abbrev pub cfg : AppConfig
cfg = record {
  ws_port = 8080;
  max_clients = pos 128;
  read_only = false;
  testing_mode = false;
  logging_enabled = false;
  auto_config_can = true;
  tick_interval_ms = pos 5;
  can_bitrate = 500000;
  can_ifname = [];
  log_dir = [];
}

abbrev pub server : App
server = record (init cfg) { can_fd = some 3; ws = true }

pub server-Reach : Reach cfg server
unfolding init
server-Reach = start server refl refl refl refl

pub server-IsSafe : IsSafe server
server-IsSafe = Reach-IsSafe cfg server-Reach
