-- ===== src/Firing.antt =====
-- src/control/firing_sequence.c: parsing a firing sequence, and starting and aborting one. The
-- worker thread is in Firing/Worker.antt.
pub mod Start
pub mod Parse
pub mod Worker
pub mod Thread
pub mod Alone
pub mod Order
pub mod Unaborted
pub mod Waits
pub mod Ticks
use static_fire.Base.{
  Bytes, ℕ, zero, suc, Bool, true, false, not, ◌||◌, Option, none, some, List, [], ◌∷◌, ◌++◌, ltb,
  ◌==◌, if◌then◌else◌,
}
use static_fire.Text.Print.{hex_pad, truncated}
use static_fire.Text.Scan.{Directive, hex, dec, literal, char, sscanf}
use static_fire.Text.{lit, after_first, tokens}
use static_fire.App.{
  App, FiringBlock, FiringConfig, WorkerArgs, Env, spawned, emit, called, max_firing_blocks,
}

-- "%x#%hx#%hu#%hu%c" and "%x#%hx#%hu%c"
abbrev pub wait_format : List Directive
wait_format =
    hex 32 ∷ literal b'#' ∷ hex 16 ∷ literal b'#' ∷ dec 16 ∷ literal b'#' ∷ dec 16 ∷ char ∷ []

abbrev pub block_format : List Directive
block_format = hex 32 ∷ literal b'#' ∷ hex 16 ∷ literal b'#' ∷ dec 16 ∷ char ∷ []

-- Exactly four values of the first format, or exactly three of the second.
unfoldable pub block_of_three : List ℕ → Option FiringBlock
block_of_three (a ∷ b ∷ c ∷ []) = some (record { id = a; value = b; duration_ms = c; wait_ms = 0 })
block_of_three _ = none

unfoldable pub block_of_four : List ℕ → Option FiringBlock → Option FiringBlock
block_of_four (a ∷ b ∷ c ∷ d ∷ []) other =
    some (record { id = a; value = b; duration_ms = c; wait_ms = d })
block_of_four _ other = other

unfoldable pub check_id : Option FiringBlock → Option FiringBlock
check_id none = none
check_id (some b) = if b.id == 0 || ltb 0x7FF b.id then none else some b

unfoldable pub parse_block : Bytes → Option FiringBlock
unfolding block_of_three block_of_four check_id
parse_block token =
    check_id (block_of_four (sscanf token wait_format) (block_of_three (sscanf token block_format)))

unfoldable pub prepend : Option FiringBlock → Option (List FiringBlock) → Option (List FiringBlock)
prepend none rest = none
prepend (some b) none = none
prepend (some b) (some bs) = some (b ∷ bs)

-- The loop over the tokens, while there is room for another block.
unfoldable pub parse_blocks : ℕ → List Bytes → Option (List FiringBlock)
unfolding prepend
parse_blocks zero ts = some []
parse_blocks (suc room) [] = some []
parse_blocks (suc room) (t ∷ ts) = prepend (parse_block t) (parse_blocks room ts)

-- `config->num_blocks > 0 ? 0 : -1`
unfoldable pub some_blocks : Option (List FiringBlock) → Option FiringConfig
some_blocks none = none
some_blocks (some []) = none
some_blocks (some (b ∷ bs)) = some (record { blocks = b ∷ bs; drown_injector = false })

-- `strdup_ok` says whether the copy of the payload could be had. `none` is the result -1.
unfoldable pub parse_payload : Bool → Option Bytes → Option FiringConfig
parse_payload strdup_ok none = none
parse_payload false (some payload) = none
parse_payload true (some payload) =
    some_blocks (parse_blocks max_firing_blocks (tokens b'|' payload))

unfoldable pub firing_sequence_parse : Bool → Bytes → Option FiringConfig
unfolding parse_payload some_blocks
firing_sequence_parse strdup_ok command = parse_payload strdup_ok (after_first b'|' command)

unfoldable pub no_blocks : List FiringBlock → Bool
no_blocks [] = true
no_blocks (b ∷ bs) = false

unfoldable pub finish_sequence : App → App
finish_sequence s = record s { sequence_active = false; sequence_abort = false }

unfoldable pub abort_requested : App → Bool
abort_requested s = s.sequence_abort

unfoldable pub request_abort : App → App
request_abort s = record s { sequence_abort = true }

-- The arguments of the thread, in their buffers.
unfoldable pub worker_args : ℕ → FiringConfig → Bytes → Bytes → Bytes → WorkerArgs
worker_args client config started completed failed = record {
  client = client;
  config = config;
  started_message = truncated 160 started;
  completed_message = truncated 128 completed;
  failed_message = truncated 128 failed;
}

-- The two blocks that drown the injector.
unfoldable pub drown_config : App → FiringConfig
drown_config s = record {
  blocks =
      record {
        id = s.valve_profile.lox_main_valve_id;
        value = s.valve_profile.lox_main_angle_open;
        duration_ms = 0;
        wait_ms = 100;
      }
      ∷ record {
        id = s.valve_profile.lox_vent_valve_id;
        value = s.valve_profile.lox_vent_angle_close;
        duration_ms = 1000;
        wait_ms = 0;
      }
      ∷ [];
  drown_injector = true;
}

unfoldable pub drown_message : App → Bytes
drown_message s =
    lit "Starting drowning sequence: open 0x"
    ++ (hex_pad 3 s.valve_profile.lox_main_valve_id
        ++ (lit " to 0x"
            ++ (hex_pad 4 s.valve_profile.lox_main_angle_open
                ++ (lit ", then close 0x"
                    ++ (hex_pad 3 s.valve_profile.lox_vent_valve_id
                        ++ (lit " to 0x" ++ hex_pad 4 s.valve_profile.lox_vent_angle_close))))))

module _ (env : Env) where
  -- The flag says that 0 is returned.
  unfoldable pub firing_sequence_start : App → WorkerArgs → App × Bool
  unfolding no_blocks finish_sequence
  firing_sequence_start s args =
      let claimed = record s { sequence_active = true; sequence_abort = false } in
      if no_blocks args.config.blocks || s.sequence_active
      then (s, false)
      else if not (env.malloc_ok claimed.calls)
      then (finish_sequence (called claimed), false)
      else if not (env.thread_ok (suc claimed.calls))
      then (finish_sequence (called (called claimed)), false)
      else (emit (spawned args) (called (called claimed)), true)

  unfoldable pub start_drown : App → ℕ → App × Bool
  unfolding firing_sequence_start drown_config
  start_drown s client =
      if s.valve_profile.lox_main_valve_id == 0 || s.valve_profile.lox_vent_valve_id == 0
      then (s, false)
      else firing_sequence_start s (
          worker_args client (drown_config s) (truncated 160 (drown_message s))
            (lit "Injector drowned successfully") (lit "Error drowning injector"))
