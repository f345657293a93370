-- ===== src/Tests/Setup.antt =====
-- Runs of the configuration and of the start, and what the theorems say of them.
use static_fire.Base.Int.{pos}
use static_fire.Base.{Bytes, true, false, some, List, [], ◌∷◌, ◌≡◌, refl, arith}
use static_fire.Text.{lit, equal}
use static_fire.Text.Scan.{is_space, magnitude, skip_space}
use static_fire.Text.Strto.{atoi, to_uint16}
use static_fire.App.{AppConfig}
use static_fire.Tests.Worlds.{calm, disk}
use static_fire.Boot.Interface.{Host, exited}
use static_fire.Boot.Main.{Booted, boot}
use static_fire.Boot.Start.{Sound, boot-Sound}
use static_fire.Config.Bounds.{IsValid, app_config_parse-IsValid}
use static_fire.Config.Grammar.{apply_line-pair, line}
use static_fire.Config.Numbers.{apply_config_kv-decimal}
use static_fire.Config.Values.{apply_config_kv}
use static_fire.Config.{
  Source, missing, accepted, default_config, app_config_load_file, apply_args, app_config_parse,
  apply_line, unquote,
}
use static_fire.Text.Print.{decimal}

-- There is no file.
abbrev no_files : Bytes → Source
no_files path = missing

abbrev args : List Bytes
args = lit "--port" ∷ lit "9000" ∷ lit "--testing" ∷ []

abbrev testing_config : AppConfig
testing_config = record default_config { ws_port = 9000; testing_mode = true }

args-accepted : app_config_parse no_files default_config args ≡ accepted testing_config
unfolding app_config_parse default_config equal app_config_load_file apply_args to_uint16 atoi
    magnitude skip_space
args-accepted = refl

app_config_parse-IsValid_example : IsValid testing_config
app_config_parse-IsValid_example = app_config_parse-IsValid no_files args args-accepted

-- The line "port = 9000".
apply_line-pair_example :
    apply_line default_config
      (line [] (b'p' ∷ b't' ∷ []) (b' ' ∷ []) (b' ' ∷ []) (b'9' ∷ b'0' ∷ []) [])
    ≡ apply_config_kv default_config (b'p' ∷ b't' ∷ []) (unquote (b'9' ∷ b'0' ∷ []))
unfolding is_space
apply_line-pair_example =
    apply_line-pair default_config [] (b' ' ∷ []) (b' ' ∷ []) [] b'p' (b't' ∷ []) b'9' (b'0' ∷ [])
      (record {
        plain = ((refl, refl), ((refl, refl), tt));
        starts = refl;
        ends = refl;
        no_comment = refl;
      })
      (record { no_zero = (refl, (refl, tt)); starts = refl; ends = refl }) tt (refl, tt) (refl, tt)
      tt

apply_config_kv-decimal_example :
    (apply_config_kv default_config (lit "ws_port") (decimal 8081)
      ≡ some (record default_config { ws_port = 8081 }))
    × (apply_config_kv default_config (lit "max_clients") (decimal 8081)
        ≡ some (record default_config { max_clients = pos 8081 }))
    × (apply_config_kv default_config (lit "tick_ms") (decimal 8081)
        ≡ some (record default_config { tick_interval_ms = pos 8081 }))
    × (apply_config_kv default_config (lit "can_bitrate") (decimal 8081)
        ≡ some (record default_config { can_bitrate = 8081 }))
apply_config_kv-decimal_example =
    apply_config_kv-decimal default_config 8081 (omega arith) (omega arith)

-- Everything succeeds, but the socket cannot be bound.
abbrev unbound : Host
unbound = record {
  run = λ _. exited 0;
  socket = λ _. some 3;
  ioctl_ok = λ _. true;
  bind_ok = λ _. false;
  epoll_create = λ _. some 4;
  epoll_ctl_ok = λ _. true;
  timerfd_create = λ _. some 5;
  settime_ok = λ _. true;
  ws_create_ok = λ _. true;
  ws_start_ok = λ _. true;
}

boot-Sound_example :
    (b : Booted) × (boot calm (disk 50 (lit "simple_ws_1.csv")) unbound no_files [] [] ≡ some b)
    × Sound no_files [] b
boot-Sound_example = boot-Sound calm (disk 50 (lit "simple_ws_1.csv")) unbound no_files [] []
