-- ===== src/Command/Fields.antt =====
-- src/control/command.c: reading the fields of a command, which the live handlers and those of the
-- testing mode share.
use static_fire.Base.{
  Bytes, ℕ, Bool, true, false, ◌&&◌, Option, none, some, List, [], ◌∷◌, ◌++◌, not,
}
use static_fire.Text.Print.{hex_pad, decimal}
use static_fire.Text.Scan.{
  Directive, hex, dec, literal, sscanf, scan_literal, scan_span, scan_number,
}
use static_fire.Text.{lit, starts_with, tokens}
use static_fire.App.{FiringBlock}
pub use static_fire.Base.{drop, tail}

-- The results of `parse_raw_can_fields`; `duration_ms` is 0 without the third field.
pub record RawCan : Type 0 where
  pub id : ℕ
  pub value : ℕ
  pub duration_ms : ℕ
  pub has_duration : Bool

abbrev pub timed_format : List Directive
timed_format = hex 32 ∷ literal b'#' ∷ hex 16 ∷ literal b'#' ∷ dec 16 ∷ []

abbrev pub plain_format : List Directive
plain_format = hex 32 ∷ literal b'#' ∷ hex 16 ∷ []

unfoldable pub plain_fields : List ℕ → Option RawCan
plain_fields (a ∷ b ∷ []) =
    some (record { id = a; value = b; duration_ms = 0; has_duration = false })
plain_fields _ = none

unfoldable pub timed_fields : List ℕ → Option RawCan → Option RawCan
timed_fields (a ∷ b ∷ c ∷ []) other =
    some (record { id = a; value = b; duration_ms = c; has_duration = true })
timed_fields _ other = other

unfoldable pub parse_raw_can_fields : Bytes → Option RawCan
unfolding plain_fields timed_fields
parse_raw_can_fields text =
    timed_fields (sscanf text timed_format) (plain_fields (sscanf text plain_format))

-- The two fields behind "SET_VALVE": `sscanf (text, "#%31[^#]#%x", ..) == 2`.
unfoldable pub valve_value : Bytes → Option Bytes → Option (Bytes × ℕ)
valve_value name none = none
valve_value name (some rest) = elim (scan_number 16 32 rest) [
  | none ↦ none
  | some (v, _) ↦ some (name, v)
]

unfoldable pub valve_name : Bytes × Bytes → Option (Bytes × ℕ)
unfolding valve_value
valve_name ([], rest) = none
valve_name (c ∷ name, rest) = valve_value (c ∷ name) (scan_literal b'#' rest)

unfoldable pub parse_valve : Bytes → Option (Bytes × ℕ)
unfolding valve_name
parse_valve text = elim (scan_literal b'#' text) [
  | none ↦ none
  | some rest ↦ valve_name (scan_span 31 b'#' rest)
]

-- One entry of WIGGLE; without the last field `total_ms` is 0.
pub record WiggleFields : Type 0 where
  pub id : ℕ
  pub start_value : ℕ
  pub end_value : ℕ
  pub exit_value : ℕ
  pub period_ms : ℕ
  pub total_ms : ℕ

abbrev pub wiggle_format : List Directive
wiggle_format =
    hex 32
    ∷ literal b'#'
    ∷ hex 16
    ∷ literal b'#'
    ∷ hex 16
    ∷ literal b'#'
    ∷ hex 16
    ∷ literal b'#'
    ∷ dec 32
    ∷ literal b'#'
    ∷ dec 32
    ∷ []

unfoldable pub wiggle_fields : List ℕ → Option WiggleFields
wiggle_fields (a ∷ b ∷ c ∷ d ∷ p ∷ []) =
    some (record {
      id = a;
      start_value = b;
      end_value = c;
      exit_value = d;
      period_ms = p;
      total_ms = 0;
    })
wiggle_fields (a ∷ b ∷ c ∷ d ∷ p ∷ t ∷ []) =
    some (record {
      id = a;
      start_value = b;
      end_value = c;
      exit_value = d;
      period_ms = p;
      total_ms = t;
    })
wiggle_fields _ = none

unfoldable pub parse_wiggle : Bytes → Option WiggleFields
unfolding wiggle_fields
parse_wiggle token = wiggle_fields (sscanf token wiggle_format)

-- One id of WIGGLE_STOP.
unfoldable pub stop_field : List ℕ → Option ℕ
stop_field (a ∷ []) = some a
stop_field _ = none

unfoldable pub parse_stop : Bytes → Option ℕ
unfolding stop_field
parse_stop token = stop_field (sscanf token (hex 32 ∷ []))

-- The tokens behind the name of the command.
abbrev pub arguments : Bytes → List Bytes
arguments command = tail (tokens b'|' command)

-- `strncmp (command, "WIGGLE", 6) != 0 || strncmp (command, "WIGGLE_STOP", 11) == 0`, negated
unfoldable pub is_wiggle : Bytes → Bool
is_wiggle command =
    starts_with (lit "WIGGLE") command && not (starts_with (lit "WIGGLE_STOP") command)

-- "%03x#%04x#%u" for each block, behind `first` or a comma.
unfoldable pub block_texts : Bytes → List FiringBlock → Bytes
block_texts before [] = []
block_texts before (b ∷ bs) =
    before
    ++ (hex_pad 3 b.id
        ++ (b'#'
            ∷ (hex_pad 4 b.value ++ (b'#' ∷ (decimal b.duration_ms ++ block_texts (lit ", ") bs)))))
