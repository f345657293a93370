-- ===== src/Boot/Held.antt =====
-- src/main.c and src/can/can_bus.c: no descriptor is lost while the server is started.
use static_fire.Base.{
  Bytes, ℕ, ◌+◌, Bool, true, false, ◌||◌, Option, List, [], ◌∷◌, ◌≡◌, refl, ◌==◌, if◌then◌else◌,
}
use static_fire.App.{AppConfig}
use static_fire.Boot.Interface.{
  Host, Starting, started, and_then, run_command, ended_well, enable_transceiver,
  can_bus_configure_interface, down_cmd, type_cmd, up_cmd, gpio_cmd,
}
use static_fire.Boot.{closing, configure}
use static_fire.Text.{is_empty}

-- How often a descriptor stands in a list.
abbrev pub count : ℕ → List ℕ → ℕ
count fd [] = 0
count fd (x ∷ xs) = (if x == fd then 1 else 0) + count fd xs

-- Nothing is lost: each descriptor has been opened as often as it has been closed or is one of the
-- state.
abbrev pub IsHeld : Starting → Type 0
IsHeld s =
    (fd : ℕ)
    → count fd s.opened
      ≡ count fd (closing s.app.can_fd (closing s.app.epoll_fd (closing s.app.timer_fd s.closed)))

-- A step has failed, and nothing is lost, or it has led to a state of `Q`.
abbrev pub Step : (Starting → Type 0) → Starting × Bool → Type 0
Step Q (s, false) = IsHeld s
Step Q (s, true) = Q s

pub and_then-Step :
    (Q R : Starting → Type 0) (f : Starting → Starting × Bool) (r : Starting × Bool)
    → ((s : Starting) → Q s → Step R (f s))
    → Step Q r
    → Step R (and_then f r)
and_then-Step Q R f (s, false) h q = q
and_then-Step Q R f (s, true) h q = h s q

pub pick-Step :
    (Q : Starting → Type 0) (b : Bool) (r t : Starting × Bool)
    → (b ≡ true → Step Q r)
    → (b ≡ false → Step Q t)
    → Step Q (if b then r else t)
pick-Step Q true r t f g = f refl
pick-Step Q false r t f g = g refl

-- How far the start has come: the descriptors of the state, those watched, and the timer.
pub record Place : Type 0 where
  pub config : AppConfig
  pub can : Option ℕ
  pub epoll : Option ℕ
  pub timer : Option ℕ
  pub watched : List ℕ
  pub armed : Option (ℕ × ℕ × Bool)

abbrev pub place_of : Starting → Place
place_of s = record {
  config = s.app.config;
  can = s.app.can_fd;
  epoll = s.app.epoll_fd;
  timer = s.app.timer_fd;
  watched = s.watched;
  armed = s.armed;
}

pub record At (p : Place) (s : Starting) : Type 0 where
  pub here : place_of s ≡ p
  pub held : IsHeld s

module _ (p : Place) where
  run_command-Step :
      (host : Host) (argv : List Bytes) (s : Starting)
      → At p s
      → Step (At p) (run_command host argv s)
  unfolding run_command
  run_command-Step host argv s x = go (ended_well (host.run s.calls))
    where
      go : (b : Bool) → Step (At p) (record (started s) { commands = argv ∷ s.commands }, b)
      go true = record { here = x.here; held = x.held }
      go false = x.held

  enable_transceiver-Step :
      (host : Host) (s : Starting) → At p s → Step (At p) (enable_transceiver host s)
  unfolding enable_transceiver
  enable_transceiver-Step host s x =
      run_command-Step host gpio_cmd _ (record { here = x.here; held = x.held })

  -- One command behind those that have been run.
  next_command :
      (host : Host) (argv : List Bytes) (r : Starting × Bool)
      → Step (At p) r
      → Step (At p) (and_then (run_command host argv) r)
  next_command host argv r x =
      and_then-Step (At p) (At p) (run_command host argv) r (run_command-Step host argv) x

  pub configure-Step : (host : Host) (s : Starting) → At p s → Step (At p) (configure host s)
  unfolding configure can_bus_configure_interface
  configure-Step host s x =
      let ifname = s.app.config.can_ifname in
      let bitrate = s.app.config.can_bitrate in
      let run =
        and_then-Step (At p) (At p) (enable_transceiver host) _ (enable_transceiver-Step host) (
          next_command host (up_cmd ifname) _ (
            next_command host (type_cmd ifname bitrate) _
              (run_command-Step host (down_cmd ifname) s x))) in
      pick-Step (At p) s.app.config.auto_config_can _ _
        (λ _. pick-Step (At p) (is_empty ifname || bitrate == 0) _ _ (λ _. x.held) (λ _. run))
        (λ _. x)
