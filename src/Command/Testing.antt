-- ===== src/Command/Testing.antt =====
-- src/control/command.c: the testing mode, where a command is parsed and answered with what was
-- read, and nothing else is done. Each answer is computed by a function with no state.
use static_fire.Base.{
  Bytes, ℕ, suc, Bool, true, false, not, ◌||◌, Option, none, some, List, [], ◌∷◌, ◌++◌, ltb, ◌==◌,
  if◌then◌else◌, length, drop,
}
use static_fire.Text.Print.{decimal, hex_pad, truncated}
use static_fire.Text.{lit, equal, starts_with}
use static_fire.App.{App, FiringConfig, Env, called}
use static_fire.Bridge.{send_text}
use static_fire.Firing.{firing_sequence_parse}
use static_fire.Command.Fields.{
  RawCan, parse_raw_can_fields, parse_valve, parse_wiggle, parse_stop, arguments, is_wiggle,
  block_texts,
}

unfoldable pub testing_state : Bytes → Bytes
testing_state requested =
    if equal requested (lit "PRECHILLING")
    then lit "TESTING parsed STATE command: PRECHILLING"
    else if equal requested (lit "HOTFIRE")
    then lit "TESTING parsed STATE command: HOTFIRE"
    else lit "TESTING parse error: unknown STATE value"

unfoldable pub parsed_valve : Bytes → ℕ → Bytes
parsed_valve name value =
    truncated 512 (lit "TESTING parsed SET_VALVE: " ++ (name ++ (lit "=0x" ++ hex_pad 3 value)))

unfoldable pub testing_set_valve : Option (Bytes × ℕ) → Bytes
unfolding parsed_valve
testing_set_valve none = lit "TESTING parse error: SET_VALVE format"
testing_set_valve (some (name, value)) =
    if equal name (lit "LOX_MAIN") || equal name (lit "LOX_VENT")
    then (if ltb 0x7FF value
        then lit "TESTING parse error: valve CAN id out of range"
        else parsed_valve name value)
    else if equal name (lit "LOX_MAIN_ANGLE_OPEN") || equal name (lit "LOX_VENT_ANGLE_CLOSE")
    then (if ltb 0x0B4 value
        then lit "TESTING parse error: valve angle out of range"
        else parsed_valve name value)
    else lit "TESTING parse error: unknown SET_VALVE field"

-- The loop over the ids: how many there were, and whether one did not parse.
unfoldable pub count_ids : List Bytes → ℕ → ℕ × Bool
count_ids [] ids = (ids, false)
count_ids (t ∷ ts) ids = elim (parse_stop t) [
  | none ↦ (ids, true)
  | some id ↦ count_ids ts (suc ids)
]

unfoldable pub testing_wiggle_stop : ℕ × Bool → Bytes
testing_wiggle_stop (ids, parse_error) =
    if parse_error || ids == 0
    then lit "TESTING parse error: WIGGLE_STOP format"
    else truncated 512 (lit "TESTING parsed WIGGLE_STOP: " ++ (decimal ids ++ lit " id(s)"))

-- The loop over the entries, with the checks that `wiggle_start` makes of its arguments.
unfoldable pub count_entries : List Bytes → ℕ → ℕ × Bool
count_entries [] blocks = (blocks, false)
count_entries (t ∷ ts) blocks = elim (parse_wiggle t) [
  | none ↦ (blocks, true)
  | some w ↦
      let rest = count_entries ts (suc blocks) in
      if ltb 0x7FF w.id || w.period_ms == 0 then (blocks, true) else rest
]

unfoldable pub testing_wiggle : ℕ × Bool → Bytes
testing_wiggle (blocks, parse_error) =
    if parse_error || blocks == 0
    then lit "TESTING parse error: WIGGLE format"
    else truncated 512 (lit "TESTING parsed WIGGLE: " ++ (decimal blocks ++ lit " block(s)"))

unfoldable pub testing_fire : Option FiringConfig → Bytes
testing_fire none = lit "TESTING parse error: FIRE format"
testing_fire (some config) = truncated 512 (
    lit "TESTING parsed FIRE: "
    ++ (decimal (length config.blocks)
        ++ (lit " block(s)" ++ (block_texts (lit " (") config.blocks ++ lit ")"))))

unfoldable pub testing_raw_can : RawCan → Bytes
testing_raw_can r =
    if ltb 0x7FF r.id
    then lit "TESTING parse error: CAN id out of range"
    else truncated 512 (
        lit "TESTING parsed RAW CAN: id=0x"
        ++ (hex_pad 3 r.id
            ++ (lit " value=0x"
                ++ (hex_pad 4 r.value
                    ++ (if r.has_duration
                        then lit " duration=" ++ decimal r.duration_ms
                        else [])))))

-- The handlers from DROWN on: the reply to the text.
unfoldable pub testing_raw_or_invalid : Option RawCan → Bytes
unfolding testing_raw_can
testing_raw_or_invalid none = lit "TESTING invalid command"
testing_raw_or_invalid (some r) = testing_raw_can r

module _ (env : Env) where
  -- The handlers of DROWN, FIRE and a raw message, and the answer to all else.
  unfoldable pub handle_testing_rest : App → ℕ → Bytes → App
  unfolding testing_fire testing_raw_or_invalid
  handle_testing_rest s client text =
      if equal text (lit "DROWN#8765")
      then send_text env s client (lit "TESTING parsed DROWN command")
      else if starts_with (lit "FIRE#8765") text
      then send_text env (called s) client
          (testing_fire (firing_sequence_parse (env.malloc_ok s.calls) text))
      else send_text env s client (testing_raw_or_invalid (parse_raw_can_fields text))

  unfoldable pub handle_testing_copy : App → ℕ → Bytes → App
  unfolding handle_testing_rest testing_wiggle_stop testing_wiggle
  handle_testing_copy s client text =
      if not (env.malloc_ok s.calls)
      then send_text env (called s) client (lit "Server error: out of memory")
      else if starts_with (lit "WIGGLE_STOP") text
      then send_text env (called s) client (testing_wiggle_stop (count_ids (arguments text) 0))
      else if is_wiggle text
      then send_text env (called s) client (testing_wiggle (count_entries (arguments text) 0))
      else handle_testing_rest (called s) client text

  unfoldable pub handle_testing_command : App → ℕ → Bytes → App
  unfolding handle_testing_copy testing_state testing_set_valve
  handle_testing_command s client text =
      if equal text (lit "ABORT#8765")
      then send_text env s client (lit "TESTING parsed ABORT command")
      else if starts_with (lit "STATE#") text
      then send_text env s client (testing_state (drop 6 text))
      else if starts_with (lit "SET_VALVE") text
      then send_text env s client (testing_set_valve (parse_valve (drop 9 text)))
      else handle_testing_copy s client text
