-- ===== src/Text/Integers.antt =====
-- What `strtoul` and `strtol` read of a number that %u printed.
use static_fire.Base.Int.{pos}
use static_fire.Base.{
  Bytes, ℕ, ◌<◌, ◌^◌, ◌-◌, false, some, [], ◌∷◌, ◌≡◌, refl, ◌∙◌, ap, arith, All, append-nil, length,
  le→ltb,
}
use static_fire.Text.Print.{decimal, digits}
use static_fire.Text.RoundTrip.{
  IsDigit, plain_digit, magnitude-digits, All-digits, length-digits, read_digits-digits,
  read_digits-Stops, scan_number-decimal,
}
use static_fire.Text.Scan.{skip_space, read_digits}
use static_fire.Text.Strto.{strtoul, strtol, sign, clamp}

pub strtoul-decimal : (n : ℕ) → n < 2 ^ 64 → strtoul (decimal n) ≡ (n, [])
unfolding strtoul
strtoul-decimal n h = rw (rw append-nil at (scan_number-decimal 64 n [] h h tt), strtoul) refl

sign-digit : (c : ℕ) (t : Bytes) → IsDigit 10 c → sign (skip_space (c ∷ t)) ≡ (false, c ∷ t)
unfolding skip_space sign
sign-digit c t d =
    let (sp, minus, plus, _) = plain_digit 10 (omega arith) (omega arith) c d in
    rw (sp, skip_space) (rw (minus, plus) refl)

-- A text of digits that stands for a number below 2^63.
strtol-digits :
    (t : Bytes) (n : ℕ)
    → All (IsDigit 10) t
    → 0 < length t
    → read_digits 10 0 t ≡ (n, [])
    → n < 2 ^ 63
    → strtol t ≡ (pos n, [])
unfolding strtol clamp
strtol-digits [] n a l e h = absurd (omega arith)
strtol-digits (c ∷ t) n a l e h =
    let m = rw append-nil at (magnitude-digits 10 (omega arith) (omega arith) c t [] a.0 a.1 tt) in
    rw (sign-digit c t a.0, m ∙ ap some e, strtol)
      (rw (sign-digit c t a.0, le→ltb (2 ^ 63 - 1) n (omega arith)) refl)

pub strtol-decimal : (n : ℕ) → n < 2 ^ 63 → strtol (decimal n) ≡ (pos n, [])
unfolding decimal
strtol-decimal n h =
    strtol-digits (digits 20 10 n) n (All-digits 10 (omega arith) (omega arith) 20 n)
      (length-digits 10 (omega arith) (omega arith) 19 n)
      (rw append-nil at (read_digits-digits 10 (omega arith) (omega arith) 20 n [] (omega arith))
        ∙ read_digits-Stops 10 (omega arith) (omega arith) n [] tt)
      h

pub decimal-some : (n : ℕ) → 0 < length (decimal n)
unfolding decimal
decimal-some n = length-digits 10 (omega arith) (omega arith) 19 n
