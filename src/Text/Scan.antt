-- ===== src/Text/Scan.antt =====
-- `sscanf` as the program uses it: the conversions %x, %u and %c with their widths, and literal
-- bytes, as the GNU C library documents and implements them.
use static_fire.Base.{
  Bytes, ℕ, ◌+◌, ◌-◌, ◌*◌, ◌%◌, ◌^◌, Bool, true, false, ◌&&◌, ◌||◌, Option, none, some, List, [],
  ◌∷◌, ltb, leb, ◌==◌, if◌then◌else◌,
}

-- `isspace` in the C locale
unfoldable pub is_space : ℕ → Bool
is_space c = c == b' ' || (leb 9 c && leb c 13)

unfoldable pub skip_space : Bytes → Bytes
unfolding is_space
skip_space [] = []
skip_space (c ∷ s) = let rest = skip_space s in if is_space c then rest else c ∷ s

-- The value of a digit; 36 stands for no digit of any base.
unfoldable pub digit_rank : ℕ → ℕ
digit_rank c =
    if leb b'0' c && leb c b'9'
    then c - b'0'
    else if leb b'a' c && leb c b'z'
    then c - b'a' + 10
    else if leb b'A' c && leb c b'Z'
    then c - b'A' + 10
    else 36

unfoldable pub digit_value : ℕ → ℕ → Option ℕ
unfolding digit_rank
digit_value base c = if ltb (digit_rank c) base then some (digit_rank c) else none

-- The digits at the front of the text, onto the value read so far; and the text behind them.
unfoldable pub read_digits : ℕ → ℕ → Bytes → ℕ × Bytes
read_digits base acc [] = (acc, [])
read_digits base acc (c ∷ s) = elim (digit_value base c) [
  | none ↦ (acc, c ∷ s)
  | some d ↦ read_digits base (acc * base + d) s
]

-- The `x` of a prefix `0x`, which %x takes behind a leading zero.
unfoldable pub skip_x : Bytes → Bytes
skip_x [] = []
skip_x (c ∷ s) = if c == b'x' || c == b'X' then s else c ∷ s

-- At least one digit is needed.
unfoldable pub magnitude : ℕ → Bytes → Option (ℕ × Bytes)
unfolding digit_value read_digits skip_x
magnitude base [] = none
magnitude base (c ∷ s) = elim (digit_value base c) [
  | none ↦ none
  | some d ↦ some (read_digits base d (if c == b'0' && base == 16 then skip_x s else s))
]

-- The value is read as an `unsigned long` that saturates, is negated behind a minus, and is cut to
-- the width of the variable.
unfoldable pub store : ℕ → Bool → ℕ → ℕ
store bits negative m =
    (if ltb (2 ^ 64 - 1) m then 2 ^ 64 - 1 else if negative then (2 ^ 64 - m) % 2 ^ 64 else m)
    % 2 ^ bits

unfoldable pub stored : ℕ → Bool → Option (ℕ × Bytes) → Option (ℕ × Bytes)
unfolding store
stored bits negative none = none
stored bits negative (some (m, rest)) = some (store bits negative m, rest)

unfoldable pub signed_number : ℕ → ℕ → Bytes → Option (ℕ × Bytes)
unfolding magnitude stored
signed_number base bits [] = none
signed_number base bits (c ∷ s) =
    if c == b'-'
    then stored bits true (magnitude base s)
    else if c == b'+'
    then stored bits false (magnitude base s)
    else stored bits false (magnitude base (c ∷ s))

unfoldable pub scan_number : ℕ → ℕ → Bytes → Option (ℕ × Bytes)
unfolding signed_number skip_space
scan_number base bits s = signed_number base bits (skip_space s)

-- `hex 32` is %x into a uint32_t, `hex 16` is %hx, `dec 16` is %hu, `dec 32` is %u, `char` is %c.
pub data Directive : Type 0 where
  hex dec literal : ℕ → Directive
  char : Directive

unfoldable pub scan_literal : ℕ → Bytes → Option Bytes
scan_literal c [] = none
scan_literal c (x ∷ s) = if x == c then some s else none

-- The values that were assigned, in order; their number is the result of the call. (Where the text
-- ends before the first conversion the call returns EOF, which the program treats as 0.)
unfoldable pub sscanf : Bytes → List Directive → List ℕ
unfolding scan_number scan_literal
sscanf s [] = []
sscanf s (hex w ∷ ds) = elim (scan_number 16 w s) [ none ↦ [] | some (v, r) ↦ v ∷ sscanf r ds ]
sscanf s (dec w ∷ ds) = elim (scan_number 10 w s) [ none ↦ [] | some (v, r) ↦ v ∷ sscanf r ds ]
sscanf s (literal c ∷ ds) = elim (scan_literal c s) [ none ↦ [] | some r ↦ sscanf r ds ]
sscanf [] (char ∷ ds) = []
sscanf (c ∷ s) (char ∷ ds) = c ∷ sscanf s ds

-- `%n[^c]`: at most n bytes, none of them `c`, and the text behind them.
unfoldable pub scan_span : ℕ → ℕ → Bytes → Bytes × Bytes
scan_span n c [] = ([], [])
scan_span n c (x ∷ s) =
    let rest = scan_span (n - 1) c s in
    if n == 0 || x == c then ([], x ∷ s) else (x ∷ rest.0, rest.1)
