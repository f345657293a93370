-- ===== src/Command/RoundTrip.antt =====
-- src/control/command.c: reading back the text of a raw command.
use static_fire.Base.{
  Bytes, ℕ, ◌≤◌, ◌<◌, ◌^◌, Bool, true, false, some, List, [], ◌∷◌, ◌++◌, ◌≡◌, refl, arith,
  append_assoc, append-nil,
}
use static_fire.Bus.{entry_text}
use static_fire.Text.Print.{decimal, hex_pad}
use static_fire.Text.RoundTrip.{Stops, scan_number-decimal, scan_number-hex_pad}
use static_fire.Text.Scan.{digit_rank, sscanf, hex, dec, literal, Directive}
use static_fire.Command.Live.{raw_text}
use static_fire.Command.Fields.{RawCan, plain_fields, timed_fields, parse_raw_can_fields}

-- What fits the variables of the parser.
pub record IsRaw (r : RawCan) : Type 0 where
  pub id_fits : r.id < 2 ^ 32
  pub value_fits : r.value < 2 ^ 16
  pub duration_fits : r.duration_ms < 2 ^ 16
  pub no_duration : r.has_duration ≡ false → r.duration_ms ≡ 0

hash : (base : ℕ) (rest : Bytes) → base ≤ 36 → Stops base (b'#' ∷ rest)
unfolding digit_rank
hash base rest h = (h, refl)

-- The first two fields, and what the format goes on with.
sscanf-entry :
    (id value : ℕ) (rest : Bytes) (ds : List Directive)
    → id < 2 ^ 32
    → value < 2 ^ 16
    → Stops 16 rest
    → sscanf
        (hex_pad 3 id ++ (b'#' ∷ (hex_pad 4 value ++ rest)))
        (hex 32 ∷ literal b'#' ∷ hex 16 ∷ ds)
      ≡ id ∷ value ∷ sscanf rest ds
unfolding sscanf
sscanf-entry id value rest ds i v s =
    let behind = hex_pad 4 value ++ rest in
    rw
      (
        scan_number-hex_pad 32 3 id (b'#' ∷ behind) i (omega arith) (hash 16 behind (omega arith)),
        scan_number-hex_pad 16 4 value rest v (omega arith) s,
        sscanf,
      )
      refl

sscanf-duration :
    (d : ℕ) → d < 2 ^ 16 → sscanf (b'#' ∷ decimal d) (literal b'#' ∷ dec 16 ∷ []) ≡ d ∷ []
unfolding sscanf
sscanf-duration d h =
    let e = scan_number-decimal 16 d [] h (omega arith) tt in rw (rw append-nil at e, sscanf) refl

entry-append :
    (id value : ℕ) (rest : Bytes)
    → entry_text id value ++ rest ≡ hex_pad 3 id ++ (b'#' ∷ (hex_pad 4 value ++ rest))
unfolding entry_text
entry-append id value rest = append_assoc _ _ rest

raw_text-cases :
    (id value d : ℕ) (has : Bool)
    → IsRaw (record { id = id; value = value; duration_ms = d; has_duration = has })
    → parse_raw_can_fields
        (raw_text (record { id = id; value = value; duration_ms = d; has_duration = has }))
      ≡ some (record { id = id; value = value; duration_ms = d; has_duration = has })
unfolding parse_raw_can_fields timed_fields plain_fields
raw_text-cases id value d true r =
    let rest = b'#' ∷ decimal d in
    let stop = hash 16 (decimal d) (omega arith) in
    rw
      (
        entry-append id value rest,
        sscanf-entry id value rest (literal b'#' ∷ dec 16 ∷ []) r.id_fits r.value_fits stop,
        sscanf-duration d r.duration_fits,
      )
      refl
raw_text-cases id value d false r =
    let z = r.no_duration refl in
    rw
      (
        entry-append id value [],
        sscanf-entry id value [] (literal b'#' ∷ dec 16 ∷ []) r.id_fits r.value_fits tt,
        sscanf-entry id value [] [] r.id_fits r.value_fits tt,
        z,
      )
      (unfold sscanf timed_fields plain_fields in refl)

-- The text of a raw command whose numbers fit the variables of the parser is read back as these
-- numbers, with a duration and without.
pub parse_raw_can_fields-raw_text :
    (r : RawCan) → IsRaw r → parse_raw_can_fields (raw_text r) ≡ some r
parse_raw_can_fields-raw_text r h = raw_text-cases r.id r.value r.duration_ms r.has_duration h
