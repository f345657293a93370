-- ===== src/Text/Strto.antt =====
-- `strtoul`, `strtol` and `atoi` in base ten, where `long` has 64 bits: the value, and the text from
-- `endptr` on, which is all of it where there is no number.
use static_fire.Base.Int.{ℤ, pos, negsuc}
use static_fire.Base.{
  Bytes, ℕ, ◌-◌, ◌%◌, ◌^◌, Bool, true, false, none, some, [], ◌∷◌, ltb, ◌==◌, if◌then◌else◌,
}
use static_fire.Text.Scan.{scan_number, magnitude, skip_space}

-- A negative number is negated in 64 bits; one that is too large saturates.
unfoldable pub strtoul : Bytes → ℕ × Bytes
strtoul s = elim (scan_number 10 64 s) [ none ↦ (0, s) | some r ↦ r ]

unfoldable pub sign : Bytes → Bool × Bytes
sign [] = (false, [])
sign (c ∷ s) = if c == b'-' then (true, s) else if c == b'+' then (false, s) else (false, c ∷ s)

unfoldable pub clamp : Bool → ℕ → ℤ
clamp false m = if ltb (2 ^ 63 - 1) m then pos (2 ^ 63 - 1) else pos m
clamp true m =
    if m == 0 then pos 0 else if ltb (2 ^ 63) m then negsuc (2 ^ 63 - 1) else negsuc (m - 1)

unfoldable pub strtol : Bytes → ℤ × Bytes
unfolding sign clamp
strtol s =
    let (negative, t) = sign (skip_space s) in
    elim (magnitude 10 t) [ none ↦ (pos 0, s) | some (m, rest) ↦ (clamp negative m, rest) ]

-- `(int) v`, as GCC and Clang wrap it.
unfoldable pub to_int : ℤ → ℤ
to_int (pos n) = let r = n % 2 ^ 32 in if ltb r (2 ^ 31) then pos r else negsuc (2 ^ 32 - 1 - r)
to_int (negsuc n) = let r = n % 2 ^ 32 in if ltb r (2 ^ 31) then negsuc r else pos (2 ^ 32 - 1 - r)

-- `(uint16_t) v`
unfoldable pub to_uint16 : ℤ → ℕ
to_uint16 (pos n) = n % 2 ^ 16
to_uint16 (negsuc n) = 2 ^ 16 - 1 - n % 2 ^ 16

unfoldable pub atoi : Bytes → ℤ
unfolding strtol to_int
atoi s = to_int (strtol s).0
