-- ===== src/Boot/Start.antt =====
-- src/main.c: how the start ends.
use static_fire.Base.{
  Bytes, ℕ, suc, Bool, true, false, Option, none, some, List, [], ◌≡◌, refl, ap, ◌⊎◌, inl, inr,
}
use static_fire.App.{AppConfig, Env, init}
use static_fire.Boot.Held.{count, IsHeld, Step, pick-Step, Place, At}
use static_fire.Boot.Interface.{Host, Starting}
use static_fire.Boot.Main.{
  initial, zero_logger, Booted, usage_shown, invalid_arguments, gave_up, listening, after_ws,
  after_init, after_logger, start, boot,
}
use static_fire.Boot.Ready.{IsRunning, place, init_can-Step}
use static_fire.Boot.{init_can, init_runtime, ws_bridge_start, shut}
use static_fire.Config.Bounds.{IsValid, app_config_parse-IsValid}
use static_fire.Config.{
  Source, Outcome, accepted, rejected, usage, default_config, app_config_parse,
}
use static_fire.Logger.Maintenance.Opening.{IsFresh, Opened, logger_open-Opened}
use static_fire.Logger.Maintenance.{logger_close}
use static_fire.Logger.{Dirent, Logger, Outside}
use static_fire.Runtime.Shutdown.{shutdown_runtime_lem}

-- Nothing is left open.
pub record IsDown (s : Starting) : Type 0 where
  pub no_can : s.app.can_fd ≡ none
  pub no_epoll : s.app.epoll_fd ≡ none
  pub no_timer : s.app.timer_fd ≡ none
  pub no_ws : s.app.ws ≡ false
  pub no_log : s.logger.fp ≡ none
  pub all_closed : (fd : ℕ) → count fd s.opened ≡ count fd s.closed

-- In testing mode no descriptor has been opened and no command run, and else all that the loop needs
-- is open.
abbrev pub Runs : AppConfig → Starting → Type 0
Runs cfg s =
    ((cfg.testing_mode ≡ true) × (s.opened ≡ []) × (s.commands ≡ []))
    ⊎ ((cfg.testing_mode ≡ false) × IsRunning cfg s)

pub record IsUp (cfg : AppConfig) (s : Starting) : Type 0 where
  pub config : s.app.config ≡ cfg
  pub ws : s.app.ws ≡ true
  pub runs : Runs cfg s

initial-At : (cfg : AppConfig) (l : Logger) → At (place cfg none none none [] none) (initial cfg l)
unfolding initial init
initial-At cfg l = record { here = refl; held = λ fd. refl }

shut-IsDown : (env : Env) (s : Starting) → IsHeld s → IsDown (shut env s)
unfolding shut logger_close
shut-IsDown env s h =
    let x = shutdown_runtime_lem env s.app in
    record {
      no_can = x.no_can;
      no_epoll = x.no_epoll;
      no_timer = x.no_timer;
      no_ws = x.no_ws;
      no_log = refl;
      all_closed = h;
    }

-- What `init_runtime` gives `main`.
abbrev Initialised : AppConfig → Starting → Type 0
Initialised cfg s = (s.app.config ≡ cfg) × IsHeld s × Runs cfg s

-- How a start with this configuration may end.
abbrev pub Ended : AppConfig → Booted → Type 0
Ended cfg usage_shown = ⊥
Ended cfg invalid_arguments = ⊥
Ended cfg (gave_up s) = IsDown s
Ended cfg (listening s) = IsUp cfg s

module _ (env : Env) (out : Outside) (host : Host) (cfg : AppConfig) where
  IsRunning-Initialised :
      (r : Starting × Bool)
      → cfg.testing_mode ≡ false
      → Step (IsRunning cfg) r
      → Step (Initialised cfg) r
  IsRunning-Initialised (s, false) t x = x
  IsRunning-Initialised (s, true) t x =
      (ap (λ (p : Place). p.config) x.at.here, x.at.held, inr (t, x))

  init_runtime-Step : (l : Logger) → Step (Initialised cfg) (init_runtime host (initial cfg l))
  unfolding init_runtime initial init
  init_runtime-Step l =
      pick-Step (Initialised cfg) cfg.testing_mode _ _
        (λ h. (refl, λ fd. refl, inl (h, refl, refl)))
        (λ h.
          IsRunning-Initialised (init_can host (initial cfg l)) h
            (init_can-Step host cfg (initial cfg l) (initial-At cfg l)))

  -- The WebSocket server, and how often a call was made, are no part of this.
  Runs-ws :
      (s : Starting) (b : Bool) (n : ℕ)
      → Runs cfg s
      → Runs cfg (record s { app = record s.app { ws = b }; calls = n })
  Runs-ws s b n (inl x) = inl x
  Runs-ws s b n (inr (t, x)) = inr (
    t,
    record {
      can = x.can;
      epoll = x.epoll;
      timer = x.timer;
      at = record { here = x.at.here; held = x.at.held };
    },
  )

  ws_bridge_start-Step :
      (s : Starting) → Initialised cfg s → Step (IsUp cfg) (ws_bridge_start host s)
  unfolding ws_bridge_start
  ws_bridge_start-Step s (c, h, r) =
      pick-Step (IsUp cfg) (host.ws_create_ok s.calls) _ _
        (λ _. begun (host.ws_start_ok (suc s.calls))) (λ _. h)
    where
      created : Starting
      created = record s { app = record s.app { ws = true }; calls = suc (suc s.calls) }

      begun : (b : Bool) → Step (IsUp cfg) (created, b)
      begun false = h
      begun true = record { config = c; ws = refl; runs = Runs-ws s true (suc (suc s.calls)) r }

  printed-IsUp :
      (s : Starting) (ls : List Bytes) → IsUp cfg s → IsUp cfg (record s { printed = ls })
  printed-IsUp s ls x = record { config = x.config; ws = x.ws; runs = go x.runs }
    where
      go : Runs cfg s → Runs cfg (record s { printed = ls })
      go (inl y) = inl y
      go (inr (t, y)) = inr (
        t,
        record {
          can = y.can;
          epoll = y.epoll;
          timer = y.timer;
          at = record { here = y.at.here; held = y.at.held };
        },
      )

  after_ws-Ended : (r : Starting × Bool) → Step (IsUp cfg) r → Ended cfg (after_ws env out host r)
  unfolding after_ws
  after_ws-Ended (s, false) x = shut-IsDown env s x
  after_ws-Ended (s, true) x = printed-IsUp s _ x

  after_init-Ended :
      (r : Starting × Bool) → Step (Initialised cfg) r → Ended cfg (after_init env out host r)
  unfolding after_init
  after_init-Ended (s, false) x = shut-IsDown env s x
  after_init-Ended (s, true) x = after_ws-Ended (ws_bridge_start host s) (ws_bridge_start-Step s x)

  initial-IsDown : (l : Logger) → l.fp ≡ none → IsDown (initial cfg l)
  unfolding initial init
  initial-IsDown l e = record {
    no_can = refl;
    no_epoll = refl;
    no_timer = refl;
    no_ws = refl;
    no_log = e;
    all_closed = λ fd. refl;
  }

  after_logger-Ended :
      (o : Option (Logger × Bool))
      → Opened o
      → (b : Booted) × (after_logger env out host cfg o ≡ some b) × Ended cfg b
  unfolding after_logger
  after_logger-Ended o x = go x.success refl
    where
      go :
          (b : Bool)
          → x.success ≡ b
          → (t : Booted) × (after_logger env out host cfg o ≡ some t) × Ended cfg t
      go false e =
          (gave_up (initial cfg x.log), rw (x.ends, e) refl, initial-IsDown x.log (x.closed e))
      go true e = (
        after_init env out host (init_runtime host (initial cfg x.log)),
        rw (x.ends, e) refl,
        after_init-Ended _ (init_runtime-Step x.log),
      )

-- How `main` has come to its loop or to its end.
abbrev pub Sound : (files : Bytes → Source) (args : List Bytes) → Booted → Type 0
Sound files args usage_shown = app_config_parse files default_config args ≡ usage
Sound files args invalid_arguments = app_config_parse files default_config args ≡ rejected
Sound files args (gave_up s) = IsDown s
Sound files args (listening s) =
    (cfg : AppConfig) × (app_config_parse files default_config args ≡ accepted cfg)
    × IsValid cfg
    × IsUp cfg s

module _ (env : Env) (out : Outside) (host : Host) (files : Bytes → Source)
    (args : List Bytes) where
  Ended-Sound :
      (cfg : AppConfig) (b : Booted)
      → app_config_parse files default_config args ≡ accepted cfg
      → Ended cfg b
      → Sound files args b
  Ended-Sound cfg usage_shown e x = absurd x
  Ended-Sound cfg invalid_arguments e x = absurd x
  Ended-Sound cfg (gave_up s) e x = x
  Ended-Sound cfg (listening s) e x = (cfg, e, app_config_parse-IsValid files args e, x)

  start-Sound :
      (entries : List Dirent) (o : Outcome)
      → app_config_parse files default_config args ≡ o
      → (b : Booted) × (start env out host entries o ≡ some b) × Sound files args b
  unfolding start
  start-Sound entries usage e = (usage_shown, refl, e)
  start-Sound entries rejected e = (invalid_arguments, refl, e)
  start-Sound entries (accepted cfg) e =
      let fresh : IsFresh (zero_logger entries) = refl in
      let (b, ends, x) =
        after_logger-Ended env out host cfg _
          (logger_open-Opened out cfg.logging_enabled cfg.log_dir (zero_logger entries) fresh) in
      (b, ends, Ended-Sound cfg b e x)

  -- The start ends for any files, arguments and answers of the kernel. It exits with the usage or
  -- the refusal only where `app_config_parse` ends so. When a later step fails, each descriptor that
  -- was opened has been closed as often, and no log or WebSocket server is left. When the server
  -- listens, its configuration is in the ranges; outside testing mode the CAN socket and the timer
  -- are open and watched and the timer runs with the configured interval, and in testing mode no
  -- descriptor has been opened and no command run.
  pub boot-Sound :
      (entries : List Dirent)
      → (b : Booted) × (boot env out host files entries args ≡ some b) × Sound files args b
  unfolding boot
  boot-Sound entries = start-Sound entries (app_config_parse files default_config args) refl
