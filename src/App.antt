-- ===== src/App.antt =====
-- include/app/context.h, include/app/config.h, src/app/context.c: the shared state of the server,
-- and what the model adds to it: the calls made of the world outside, and what they returned.
pub mod View
use static_fire.Base.Int.{ℤ, pos, negsuc}
use static_fire.Base.{
  Bytes, ℕ, suc, Bool, true, false, Option, none, some, List, [], ◌∷◌, replicate,
}

pub data AppState : Type 0 where
  prechilling hotfire : AppState

pub record AppConfig : Type 0 where
  pub ws_port : ℕ
  pub max_clients : ℤ
  pub read_only : Bool
  pub testing_mode : Bool
  pub logging_enabled : Bool
  pub auto_config_can : Bool
  pub tick_interval_ms : ℤ
  pub can_bitrate : ℕ
  pub can_ifname : Bytes
  pub log_dir : Bytes

-- `app_client_ctx_t`: the handle of the client, and its mode. The list link is the list's.
pub record ClientCtx : Type 0 where
  pub client : ℕ
  pub write_only : Bool

-- `wiggle_command_t`
pub record WiggleCommand : Type 0 where
  pub id : ℕ
  pub start_value : ℕ
  pub end_value : ℕ
  pub current_value : ℕ
  pub exit_value : ℕ
  pub period_ms : ℕ
  pub total_duration_ms : ℕ
  pub next_toggle_ms : ℕ
  pub stop_time_ms : ℕ
  pub active : Bool

abbrev pub max_wiggles : ℕ
max_wiggles = 16

abbrev pub max_firing_blocks : ℕ
max_firing_blocks = 24

abbrev pub can_id_count : ℕ
can_id_count = 0x800

-- One index of the arrays of `firing_sequence_config_t`.
pub record FiringBlock : Type 0 where
  pub id : ℕ
  pub value : ℕ
  pub duration_ms : ℕ
  pub wait_ms : ℕ

-- The first `num_blocks` entries of the arrays, as a list of that length.
pub record FiringConfig : Type 0 where
  pub blocks : List FiringBlock
  pub drown_injector : Bool

pub record ValveProfile : Type 0 where
  pub lox_main_valve_id : ℕ
  pub lox_main_angle_open : ℕ
  pub lox_vent_valve_id : ℕ
  pub lox_vent_angle_close : ℕ

-- `sequence_worker_args_t`
pub record WorkerArgs : Type 0 where
  pub client : ℕ
  pub config : FiringConfig
  pub started_message : Bytes
  pub completed_message : Bytes
  pub failed_message : Bytes

-- `struct can_frame`
pub record CanFrame : Type 0 where
  pub can_id : ℕ
  pub can_dlc : ℕ
  pub payload : List ℕ

-- What the code does that is seen outside: a `write` to the CAN socket and whether it was taken, a
-- text or a pong handed to the WebSocket library, a call of the logger, a thread that was created.
pub data Event : Type 0 where
  can_write : CanFrame → Bool → Event
  sent : ℕ → Bytes → Event
  pong : ℕ → Event
  logged : Bytes → Bytes → Event
  spawned : WorkerArgs → Event

-- `app_context_t`. A descriptor is `none` where the source has a negative number, and `ws` says
-- whether the pointer to the WebSocket server is set. `calls` counts the calls whose result comes
-- from outside, and `events` holds what was done, the newest first.
pub record App : Type 0 where
  pub config : AppConfig
  pub stop : Bool
  pub epoll_fd : Option ℕ
  pub timer_fd : Option ℕ
  pub can_fd : Option ℕ
  pub ws : Bool
  pub clients : List ClientCtx
  pub state : AppState
  pub wiggles : List WiggleCommand
  pub can_values : ℕ → ℤ
  pub can_dirty : ℕ → Bool
  pub sequence_active : Bool
  pub sequence_abort : Bool
  pub valve_profile : ValveProfile
  pub calls : ℕ
  pub events : List Event

-- The results of the outside calls, each at the number that the call has: any function is allowed.
pub record Env : Type 0 where
  pub write_ok : ℕ → Bool
  pub monotonic_ms : ℕ → ℕ
  pub realtime_ns : ℕ → ℕ
  pub is_connected : ℕ → ℕ → Bool
  pub handshake_done : ℕ → ℕ → Bool
  pub malloc_ok : ℕ → Bool
  pub thread_ok : ℕ → Bool
  pub error_text : ℕ → Bytes

abbrev pub emit : Event → App → App
emit e s = record s { events = e ∷ s.events }

abbrev pub called : App → App
called s = record s { calls = suc s.calls }

-- A slot after `memset (slot, 0, sizeof (*slot))`.
abbrev pub zero_slot : WiggleCommand
zero_slot = record {
  id = 0;
  start_value = 0;
  end_value = 0;
  current_value = 0;
  exit_value = 0;
  period_ms = 0;
  total_duration_ms = 0;
  next_toggle_ms = 0;
  stop_time_ms = 0;
  active = false;
}

-- `app_context_init`
unfoldable pub init : AppConfig → App
init cfg = record {
  config = cfg;
  stop = false;
  epoll_fd = none;
  timer_fd = none;
  can_fd = none;
  ws = false;
  clients = [];
  state = prechilling;
  wiggles = replicate max_wiggles zero_slot;
  can_values = λ _. negsuc 0;
  can_dirty = λ _. false;
  sequence_active = false;
  sequence_abort = false;
  valve_profile = record {
    lox_main_valve_id = 0x709;
    lox_main_angle_open = 0x0099;
    lox_vent_valve_id = 0x702;
    lox_vent_angle_close = 0x0074;
  };
  calls = 0;
  events = [];
}

-- The frames that the CAN socket took, the newest first.
abbrev pub frames : List Event → List CanFrame
frames [] = []
frames (can_write f true ∷ es) = f ∷ frames es
frames (_ ∷ es) = frames es

-- What the threads that were created were given, the newest first.
abbrev pub threads : List Event → List WorkerArgs
threads [] = []
threads (spawned a ∷ es) = a ∷ threads es
threads (_ ∷ es) = threads es
