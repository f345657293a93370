-- ===== src/Text.antt =====
-- C strings as lists of bytes with no terminating zero, and what the program uses of <string.h>:
-- `strcmp`, `strncmp`, `strchr`, `strtok_r`.
pub mod Scan
pub mod Print
pub mod Bounds
pub mod RoundTrip
pub mod Strto
pub mod Integers
use Prim.Native.Char.{code}
use Prim.Native.String.{String}
use static_fire.Base.{
  Bytes, ℕ, ◌+◌, leb, Bool, true, false, ◌&&◌, Option, none, some, List, [], ◌∷◌, ◌≡◌, ◌↔◌, arith,
  ◌==◌, if◌then◌else◌,
}

-- The bytes of a string literal; the program's literals are ASCII.
unfoldable pub lit : String → Bytes
lit String.[] = []
lit (String.◌∷◌ c s) = code c ∷ lit s

-- The C string at the front of a buffer: what stands before its first zero byte.
unfoldable pub c_string : Bytes → Bytes
c_string [] = []
c_string (b ∷ bs) = if b == 0 then [] else b ∷ c_string bs

-- `strcmp (a, b) == 0`
unfoldable pub equal : Bytes → Bytes → Bool
equal [] [] = true
equal (c ∷ a) (d ∷ b) = c == d && equal a b
equal _ _ = false

-- `strncmp (s, p, strlen (p)) == 0`
unfoldable pub starts_with : Bytes → Bytes → Bool
starts_with [] s = true
starts_with (c ∷ p) [] = false
starts_with (c ∷ p) (x ∷ s) = c == x && starts_with p s

-- What follows the first `c`, as in `strchr (s, c) + 1`.
unfoldable pub after_first : ℕ → Bytes → Option Bytes
after_first c [] = none
after_first c (x ∷ s) = if x == c then some s else after_first c s

-- The pieces between the separators, the empty ones too.
abbrev pub prepend : ℕ → List Bytes → List Bytes
prepend c [] = (c ∷ []) ∷ []
prepend c (p ∷ ps) = (c ∷ p) ∷ ps

unfoldable pub pieces : ℕ → Bytes → List Bytes
pieces d [] = [] ∷ []
pieces d (c ∷ s) = let rest = pieces d s in if c == d then [] ∷ rest else prepend c rest

unfoldable pub drop_empty : List Bytes → List Bytes
drop_empty [] = []
drop_empty ([] ∷ ps) = drop_empty ps
drop_empty ((c ∷ p) ∷ ps) = (c ∷ p) ∷ drop_empty ps

-- What successive calls of `strtok_r (s, "d", &saveptr)` return: the non-empty pieces.
unfoldable pub tokens : ℕ → Bytes → List Bytes
unfolding pieces drop_empty
tokens d s = drop_empty (pieces d s)

-- The texts around the first `c`, as in `eq = strchr (s, c); *eq = '\0';`.
unfoldable pub split_at : ℕ → Bytes → Option (Bytes × Bytes)
split_at c [] = none
split_at c (x ∷ s) = elim (x == c) [
  | true ↦ some ([], s)
  | false ↦ elim (split_at c s) [ none ↦ none | some (a, b) ↦ some (x ∷ a, b) ]
]

-- `tolower` in the C locale
unfoldable pub lower : ℕ → ℕ
lower c = if leb b'A' c && leb c b'Z' then c + 32 else c

-- `strcasecmp (a, b) == 0`
unfoldable pub equal_case : Bytes → Bytes → Bool
unfolding lower
equal_case [] [] = true
equal_case (c ∷ a) (d ∷ b) = lower c == lower d && equal_case a b
equal_case _ _ = false

abbrev pub is_empty : Bytes → Bool
is_empty [] = true
is_empty (c ∷ s) = false
