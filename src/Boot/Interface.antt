-- ===== src/Boot/Interface.antt =====
-- src/can/can_bus.c: configuring the CAN interface and opening the socket.
use static_fire.Base.{
  Bytes, ℕ, suc, Bool, true, false, not, ◌||◌, Option, none, some, List, [], ◌∷◌, ◌==◌,
  if◌then◌else◌,
}
use static_fire.App.{App}
use static_fire.Logger.{Logger}
use static_fire.Text.Print.{decimal, truncated}
use static_fire.Text.{lit, is_empty}

-- A server that is being started: its state, its log, the lines printed, and on the side of the
-- kernel the commands that were run, the descriptors opened and those closed, those that the epoll
-- descriptor watches, and the value of the timer. The newest comes first.
pub record Starting : Type 0 where
  pub app : App
  pub logger : Logger
  pub printed : List Bytes
  pub commands : List (List Bytes)
  pub opened : List ℕ
  pub closed : List ℕ
  pub watched : List ℕ
  pub armed : Option (ℕ × ℕ × Bool)
  pub calls : ℕ

-- How a command ends: `fork` fails, or `waitpid` does, which is called again while a signal interrupts
-- it; or it gives the exit code, 126 and 127 if the program could not be run, or a signal.
pub data Waited : Type 0 where
  not_forked not_waited signalled : Waited
  exited : ℕ → Waited

-- The results of the outside calls, each at the number that the call has. `run` is how a command ends;
-- a descriptor that the kernel gives is not negative.
pub record Host : Type 0 where
  pub run : ℕ → Waited
  pub socket : ℕ → Option ℕ
  pub ioctl_ok : ℕ → Bool
  pub bind_ok : ℕ → Bool
  pub epoll_create : ℕ → Option ℕ
  pub epoll_ctl_ok : ℕ → Bool
  pub timerfd_create : ℕ → Option ℕ
  pub settime_ok : ℕ → Bool
  pub ws_create_ok : ℕ → Bool
  pub ws_start_ok : ℕ → Bool

abbrev pub started : Starting → Starting
started s = record s { calls = suc s.calls }

-- The next step, unless one has failed.
abbrev pub and_then : (Starting → Starting × Bool) → Starting × Bool → Starting × Bool
and_then f (s, false) = (s, false)
and_then f (s, true) = f s

unfoldable pub down_cmd : Bytes → List Bytes
down_cmd ifname = lit "ip" ∷ lit "link" ∷ lit "set" ∷ lit "dev" ∷ ifname ∷ lit "down" ∷ []

unfoldable pub type_cmd : Bytes → ℕ → List Bytes
type_cmd ifname bitrate =
    lit "ip"
    ∷ lit "link"
    ∷ lit "set"
    ∷ lit "dev"
    ∷ ifname
    ∷ lit "type"
    ∷ lit "can"
    ∷ lit "bitrate"
    ∷ truncated 16 (decimal bitrate)
    ∷ lit "restart-ms"
    ∷ lit "100"
    ∷ []

unfoldable pub up_cmd : Bytes → List Bytes
up_cmd ifname = lit "ip" ∷ lit "link" ∷ lit "set" ∷ lit "dev" ∷ ifname ∷ lit "up" ∷ []

unfoldable pub gpio_cmd : List Bytes
gpio_cmd = lit "sudo" ∷ lit "gpioset" ∷ lit "gpiochip0" ∷ lit "37=0" ∷ []

-- `WIFEXITED (status) && WEXITSTATUS (status) == 0`
unfoldable pub ended_well : Waited → Bool
ended_well (exited code) = code == 0
ended_well _ = false

module _ (host : Host) where
  unfoldable pub run_command : List Bytes → Starting → Starting × Bool
  unfolding ended_well
  run_command argv s =
      (record (started s) { commands = argv ∷ s.commands }, ended_well (host.run s.calls))

  unfoldable pub enable_transceiver : Starting → Starting × Bool
  unfolding run_command gpio_cmd
  enable_transceiver s =
      run_command gpio_cmd (record s {
        printed = lit "Configuring GPIO line 37 to enable CAN transceiver" ∷ s.printed;
      })

  unfoldable pub can_bus_configure_interface : Bytes → ℕ → Starting → Starting × Bool
  unfolding run_command enable_transceiver down_cmd type_cmd up_cmd
  can_bus_configure_interface ifname bitrate s =
      if is_empty ifname || bitrate == 0
      then (s, false)
      else and_then enable_transceiver (
          and_then (run_command (up_cmd ifname))
            (and_then (run_command (type_cmd ifname bitrate)) (run_command (down_cmd ifname) s)))

  -- With the descriptor of the socket, which is closed again if it cannot be bound to the interface.
  unfoldable pub bind_socket : Option ℕ → Starting → Starting × Option ℕ
  bind_socket none s = (s, none)
  bind_socket (some fd) s =
      let made = record s { opened = fd ∷ s.opened } in
      let given_up = record made { closed = fd ∷ s.closed } in
      if not (host.ioctl_ok s.calls)
      then (started given_up, none)
      else if not (host.bind_ok (suc s.calls))
      then (started (started given_up), none)
      else (started (started made), some fd)

  unfoldable pub can_bus_open : Bytes → Starting → Starting × Option ℕ
  unfolding bind_socket
  can_bus_open ifname s =
      if is_empty ifname then (s, none) else bind_socket (host.socket s.calls) (started s)
