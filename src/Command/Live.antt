-- ===== src/Command/Live.antt =====
-- src/control/command.c: the handlers that act on the CAN bus and the state.
use static_fire.Base.{
  Bytes, ℕ, suc, ◌%◌, ◌^◌, Bool, true, false, not, ◌||◌, Option, none, some, List, [], ◌∷◌, ◌++◌,
  ltb, ◌==◌, if◌then◌else◌, length,
}
use static_fire.Text.Print.{decimal, truncated}
use static_fire.Text.{lit, equal, starts_with}
use static_fire.App.{
  AppState, prechilling, hotfire, App, ValveProfile, FiringConfig, Env, logged, emit, called,
}
use static_fire.Bridge.{send_text}
use static_fire.Bus.{send_command, entry_text}
use static_fire.Wiggle.{wiggle_start, wiggle_stop, wiggle_stop_all}
use static_fire.State.{app_state_get, state_set}
use static_fire.Firing.{
  firing_sequence_parse, firing_sequence_start, start_drown, request_abort, worker_args,
}
use static_fire.Command.Fields.{
  RawCan, WiggleFields, parse_raw_can_fields, parse_valve, parse_wiggle, parse_stop, arguments,
  is_wiggle, block_texts, drop,
}

-- What SET_VALVE writes: `none` is the reply "Invalid valve id or value".
unfoldable pub set_field : ValveProfile → Bytes → ℕ → Option ValveProfile
set_field p name value =
    if equal name (lit "LOX_MAIN")
    then (if ltb 0x7FF value then none else some (record p { lox_main_valve_id = value }))
    else if equal name (lit "LOX_VENT")
    then (if ltb 0x7FF value then none else some (record p { lox_vent_valve_id = value }))
    else if equal name (lit "LOX_MAIN_ANGLE_OPEN")
    then (if ltb 0x0B4 value
        then none
        else some (record p { lox_main_angle_open = value % 2 ^ 16 }))
    else if equal name (lit "LOX_VENT_ANGLE_CLOSE")
    then (if ltb 0x0B4 value
        then none
        else some (record p { lox_vent_angle_close = value % 2 ^ 16 }))
    else none

-- The text that the worker sends first, as far as it fits 256 bytes.
unfoldable pub started_message : FiringConfig → Bytes
started_message config = truncated 256 (
    lit "Firing sequence started with "
    ++ (decimal (length config.blocks) ++ (lit " blocks" ++ block_texts (lit ": ") config.blocks)))

unfoldable pub stop_reply : ℕ → Bool → Bytes
stop_reply stopped parse_error =
    if parse_error
    then lit "WIGGLE_STOP failed: invalid format"
    else if stopped == 0
    then lit "WIGGLE_STOP: no active wiggles for requested IDs"
    else truncated 96 (lit "Stopped wiggle for " ++ (decimal stopped ++ lit " sensor(s)"))

unfoldable pub wiggle_reply : ℕ → Bool → Bytes
wiggle_reply started parse_error =
    if parse_error || started == 0
    then lit "WIGGLE failed: invalid format or no available slots"
    else truncated 96 (lit "WIGGLE started for " ++ (decimal started ++ lit " sensor(s)"))

abbrev pub raw_text : RawCan → Bytes
raw_text r =
    entry_text r.id r.value ++ (if r.has_duration then b'#' ∷ decimal r.duration_ms else [])

module _ (env : Env) where
  unfoldable pub state_command : App → ℕ → AppState → Bytes → App
  state_command s client state label =
      let (s', changed) = state_set env s state in
      send_text env s' client
        (lit "State set to " ++ (label ++ (if changed then [] else lit " (unchanged)")))

  unfoldable pub handle_state_command : App → ℕ → Bytes → Option App
  unfolding state_command
  handle_state_command s client text =
      if not (starts_with (lit "STATE#") text)
      then none
      else if equal (drop 6 text) (lit "PRECHILLING")
      then some (state_command s client prechilling (lit "PRECHILLING"))
      else if equal (drop 6 text) (lit "HOTFIRE")
      then some (state_command s client hotfire (lit "HOTFIRE"))
      else some (send_text env s client (lit "Unknown state requested"))

  unfoldable pub set_profile : App → ℕ → Option ValveProfile → App
  set_profile s client none = send_text env s client (lit "Invalid valve id or value")
  set_profile s client (some p) =
      send_text env (record s { valve_profile = p }) client (lit "Valve set successfully")

  unfoldable pub set_valve : App → ℕ → Option (Bytes × ℕ) → App
  unfolding set_profile
  set_valve s client none = send_text env s client (lit "Error setting valve id")
  set_valve s client (some (name, value)) =
      set_profile s client (set_field s.valve_profile name value)

  unfoldable pub handle_set_valve : App → ℕ → Bytes → Option App
  unfolding set_valve
  handle_set_valve s client text =
      if not (starts_with (lit "SET_VALVE") text)
      then none
      else some (set_valve s client (parse_valve (drop 9 text)))

  unfoldable pub handle_drown : App → ℕ → Bytes → Option App
  handle_drown s client text =
      let (s', started) = start_drown env s client in
      if not (equal text (lit "DROWN#8765"))
      then none
      else some (if started then s' else send_text env s' client (lit "Error drowning injector"))

  unfoldable pub handle_abort : App → ℕ → Bytes → Option App
  handle_abort s client text =
      if not (equal text (lit "ABORT#8765"))
      then none
      else some (
          send_text env (wiggle_stop_all env (request_abort s) true) client (lit "Abort requested"))

  unfoldable pub fire : App → ℕ → Option FiringConfig → App
  unfolding started_message
  fire s client none = send_text env s client (lit "Error parsing command")
  fire s client (some config) =
      let (s', started) = firing_sequence_start env s (
        worker_args client config (started_message config) (lit "Firing sequence completed")
          (lit "Firing sequence failed to start")) in
      if started then s' else send_text env s' client (lit "A firing sequence is already running")

  unfoldable pub handle_fire : App → ℕ → Bytes → Option App
  unfolding fire
  handle_fire s client text =
      if not (starts_with (lit "FIRE#8765") text)
      then none
      else some (fire (called s) client (firing_sequence_parse (env.malloc_ok s.calls) text))

  -- The loop over the ids: the state, how many were stopped, and whether a token did not parse.
  unfoldable pub stop_all_ids : List Bytes → App → ℕ → App × ℕ × Bool
  stop_all_ids [] s stopped = (s, stopped, false)
  stop_all_ids (t ∷ ts) s stopped = elim (parse_stop t) [
    | none ↦ (s, stopped, true)
    | some id ↦
        stop_all_ids ts (wiggle_stop env s id).0
          (if (wiggle_stop env s id).1 then suc stopped else stopped)
  ]

  unfoldable pub handle_wiggle_stop : App → ℕ → Bytes → Option App
  unfolding stop_all_ids stop_reply
  handle_wiggle_stop s client command =
      let (s', stopped, parse_error) = stop_all_ids (arguments command) s 0 in
      if not (starts_with (lit "WIGGLE_STOP") command)
      then none
      else some (send_text env s' client (stop_reply stopped parse_error))

  abbrev pub start_fields : App → WiggleFields → App × Bool
  start_fields s w =
      wiggle_start env s w.id w.start_value w.end_value w.exit_value w.period_ms w.total_ms

  -- The loop over the entries: the state, how many were started, and whether one failed.
  unfoldable pub start_all : List Bytes → App → ℕ → App × ℕ × Bool
  start_all [] s started = (s, started, false)
  start_all (t ∷ ts) s started = elim (parse_wiggle t) [
    | none ↦ (s, started, true)
    | some w ↦
        let rest = start_all ts (start_fields s w).0 (suc started) in
        if (start_fields s w).1 then rest else ((start_fields s w).0, started, true)
  ]

  unfoldable pub wiggle_in : AppState → App → ℕ → Bytes → App
  unfolding start_all wiggle_reply
  wiggle_in hotfire s client command =
      send_text env s client (lit "WIGGLE rejected: system not in PRECHILLING")
  wiggle_in prechilling s client command =
      let (s', started, parse_error) = start_all (arguments command) s 0 in
      send_text env s' client (wiggle_reply started parse_error)

  unfoldable pub handle_wiggle : App → ℕ → Bytes → Option App
  unfolding wiggle_in
  handle_wiggle s client command =
      if not (is_wiggle command) then none else some (wiggle_in (app_state_get s) s client command)

  unfoldable pub raw_can : App → ℕ → Option RawCan → Option App
  raw_can s client none = none
  raw_can s client (some r) =
      let (s', sent_it) = send_command env s r.id r.value r.duration_ms in
      if sent_it
      then some
          (send_text env (emit (logged (lit "CAN_TX") (raw_text r)) s') client (lit "Message sent"))
      else some (
          send_text env (called s') client
            (truncated 128 (lit "Error sending message: " ++ env.error_text s'.calls)))

  unfoldable pub handle_raw_can : App → ℕ → Bytes → Option App
  unfolding raw_can
  handle_raw_can s client text = raw_can s client (parse_raw_can_fields text)
