-- ===== src/Text/RoundTrip.antt =====
-- What `sscanf` and `strtoul` read of the numbers that `snprintf` wrote.
use static_fire.Base.{
  Bytes, ℕ, zero, suc, ◌+◌, ◌-◌, ◌*◌, ◌/◌, ◌%◌, ◌^◌, ◌≤◌, ◌<◌, Bool, true, false, ◌||◌, some, [],
  ◌∷◌, ◌++◌, ◌≡◌, refl, ◌∙◌, ap, arith, ltb, ◌==◌, if◌then◌else◌, length, replicate, append_assoc,
  Bool-cases, inl, inr, All, All-append, length-append, lt→ltb, ltb→lt, le→ltb,
}
use static_fire.Text.Scan.{
  digit_value, digit_rank, read_digits, magnitude, skip_x, is_space, skip_space, store, stored,
  signed_number, scan_number,
}
use static_fire.Text.Print.{digit, digits, decimal, hexadecimal, hex_pad}
use native.Mathlib.Nat.{
  mod-lt, mod-eq_of_lt, div-lt_iff_lt-mul, pow-suc, pow-zero, zero-mul, div-add-mod',
}

-- A text of digits.
abbrev pub IsDigit : ℕ → ℕ → Type 0
IsDigit base c = digit_rank c < base

-- Behind a number: nothing, or a byte that is no digit and no `x`.
abbrev pub Stops : ℕ → Bytes → Type 0
Stops base [] = Unit
Stops base (c ∷ s) = (base ≤ digit_rank c) × ((c == b'x' || c == b'X') ≡ false)

module _ (base : ℕ) (two : 2 ≤ base) (most : base ≤ 16) where
  rank-digit : (d : ℕ) → d < base → digit_rank (digit d) ≡ d
  unfolding digit digit_rank
  rank-digit d h = ground arith

  digit_value-digit : (d : ℕ) → d < base → digit_value base (digit d) ≡ some d
  unfolding digit_value
  digit_value-digit d h = rw (rank-digit d h, lt→ltb d base h) refl

  read_digits-digit :
      (acc d : ℕ) (rest : Bytes)
      → d < base
      → read_digits base acc (digit d ∷ rest) ≡ read_digits base (acc * base + d) rest
  unfolding read_digits
  read_digits-digit acc d rest h = rw (digit_value-digit d h, read_digits) refl

  -- The digits of a number are read back as the number.
  pub read_digits-digits :
      (fuel n : ℕ) (rest : Bytes)
      → n < base ^ fuel
      → read_digits base 0 (digits fuel base n ++ rest) ≡ read_digits base n rest
  unfolding digits
  read_digits-digits zero n rest h = let z : n ≡ 0 = omega (arith, pow-zero base) in rw z refl
  read_digits-digits (suc fuel) n rest h = elim (Bool-cases (ltb n base)) [
    | inl k ↦ rw k (
        read_digits-digit 0 n rest (ltb→lt n base k)
        ∙ ap (λ m. read_digits base m rest) (omega (arith, zero-mul base)))
    | inr k ↦
        let pos : 0 < base = omega arith in
        let fits : n / base < base ^ fuel =
          (div-lt_iff_lt-mul pos).1 (rw⁻¹ (pow-suc base fuel) h) in
        let last = n % base in
        rw (k, append_assoc)
          (read_digits-digits fuel (n / base) ((digit last ∷ []) ++ rest) fits
            ∙ read_digits-digit (n / base) last rest (mod-lt n pos)
            ∙ ap (λ m. read_digits base m rest) (div-add-mod' n base))
  ]

  pub All-digits : (fuel n : ℕ) → All (IsDigit base) (digits fuel base n)
  unfolding digits
  All-digits zero n = tt
  All-digits (suc fuel) n = elim (Bool-cases (ltb n base)) [
    | inl k ↦ rw k (rw (rank-digit n (ltb→lt n base k)) (ltb→lt n base k), tt)
    | inr k ↦
        let below = mod-lt n (omega arith) in
        rw k (
          All-append (IsDigit base) _ _ (All-digits fuel (n / base))
            (rw (rank-digit (n % base) below) below, tt))
  ]

  pub read_digits-Stops :
      (n : ℕ) (rest : Bytes) → Stops base rest → read_digits base n rest ≡ (n, rest)
  unfolding read_digits digit_value
  read_digits-Stops n [] h = refl
  read_digits-Stops n (c ∷ s) h = rw (le→ltb (digit_rank c) base h.0, read_digits) refl

  -- What the first byte of a number is not.
  pub plain_digit :
      (c : ℕ)
      → IsDigit base c
      → (is_space c ≡ false)
        × ((c == b'-') ≡ false)
        × ((c == b'+') ≡ false)
        × ((c == b'x' || c == b'X') ≡ false)
  unfolding digit_rank is_space
  plain_digit c h = ground arith

  skip_x-none :
      (t rest : Bytes) → All (IsDigit base) t → Stops base rest → skip_x (t ++ rest) ≡ t ++ rest
  unfolding skip_x
  skip_x-none [] [] a s = refl
  skip_x-none [] (c ∷ r) a s = rw s.1 refl
  skip_x-none (c ∷ t) rest a s = let (_, _, _, x) = plain_digit c a.0 in rw x refl

  digit_value-some : (c : ℕ) → IsDigit base c → digit_value base c ≡ some (digit_rank c)
  unfolding digit_value
  digit_value-some c d = rw (lt→ltb (digit_rank c) base d) refl

  first_digit :
      (c : ℕ) (s : Bytes)
      → IsDigit base c
      → read_digits base 0 (c ∷ s) ≡ read_digits base (digit_rank c) s
  unfolding read_digits
  first_digit c s d =
      rw (digit_value-some c d, read_digits)
        (ap (λ m. read_digits base m s) (omega (arith, zero-mul base)))

  same_branches : (b : Bool) (s : Bytes) → (if b then s else s) ≡ s
  same_branches true s = refl
  same_branches false s = refl

  pub magnitude-digits :
      (c : ℕ) (t rest : Bytes)
      → IsDigit base c
      → All (IsDigit base) t
      → Stops base rest
      → magnitude base (c ∷ (t ++ rest)) ≡ some (read_digits base 0 (c ∷ (t ++ rest)))
  unfolding magnitude
  magnitude-digits c t rest d a s =
      rw
        (
          digit_value-some c d,
          magnitude,
          skip_x-none t rest a s,
          same_branches,
          first_digit c (t ++ rest) d,
        )
        refl

  -- A number that is written with digits of the base is read up to where they stop.
  scan_number-digits :
      (w : ℕ) (c : ℕ) (t rest : Bytes) (n : ℕ)
      → IsDigit base c
      → All (IsDigit base) t
      → Stops base rest
      → read_digits base 0 (c ∷ (t ++ rest)) ≡ read_digits base n rest
      → scan_number base w (c ∷ (t ++ rest)) ≡ some (store w false n, rest)
  unfolding scan_number skip_space signed_number stored
  scan_number-digits w c t rest n d a s e =
      let (sp, minus, plus, _) = plain_digit c d in
      rw (sp, minus, plus, magnitude-digits c t rest d a s, e, read_digits-Stops n rest s) refl

  scan_number-All :
      (w : ℕ) (t rest : Bytes) (n : ℕ)
      → All (IsDigit base) t
      → 0 < length t
      → Stops base rest
      → read_digits base 0 (t ++ rest) ≡ read_digits base n rest
      → scan_number base w (t ++ rest) ≡ some (store w false n, rest)
  scan_number-All w [] rest n a l s e = absurd (omega arith)
  scan_number-All w (c ∷ t) rest n a l s e = scan_number-digits w c t rest n a.0 a.1 s e

  pub length-digits : (fuel n : ℕ) → 0 < length (digits (suc fuel) base n)
  unfolding digits
  length-digits fuel n = elim (Bool-cases (ltb n base)) [
    | inl k ↦ rw k (omega arith)
    | inr k ↦ rw (k, length-append) (omega arith)
  ]

  scan_number-print :
      (w fuel n : ℕ) (rest : Bytes)
      → n < base ^ suc fuel
      → Stops base rest
      → scan_number base w (digits (suc fuel) base n ++ rest) ≡ some (store w false n, rest)
  scan_number-print w fuel n rest h s =
      scan_number-All w (digits (suc fuel) base n) rest n (All-digits (suc fuel) n)
        (length-digits fuel n) s (read_digits-digits (suc fuel) n rest h)

  All-zeros : (k : ℕ) → All (IsDigit base) (replicate k b'0')
  unfolding digit_rank
  All-zeros zero = tt
  All-zeros (suc k) = (omega arith, All-zeros k)

  read_digits-zeros :
      (k : ℕ) (s : Bytes) → read_digits base 0 (replicate k b'0' ++ s) ≡ read_digits base 0 s
  unfolding digit_rank
  read_digits-zeros zero s = refl
  read_digits-zeros (suc k) s =
      first_digit b'0' (replicate k b'0' ++ s) (omega arith) ∙ read_digits-zeros k s

  scan_number-pad :
      (w k fuel n : ℕ) (rest : Bytes)
      → n < base ^ suc fuel
      → Stops base rest
      → scan_number base w ((replicate k b'0' ++ digits (suc fuel) base n) ++ rest)
        ≡ some (store w false n, rest)
  scan_number-pad w k fuel n rest h s =
      let ds = digits (suc fuel) base n in
      scan_number-All w (replicate k b'0' ++ ds) rest n
        (All-append (IsDigit base) _ _ (All-zeros k) (All-digits (suc fuel) n))
        (rw length-append (omega (arith, length-digits fuel n))) s
        (rw append_assoc
          (read_digits-zeros k (ds ++ rest) ∙ read_digits-digits (suc fuel) n rest h))

store-fits : (w n : ℕ) → n < 2 ^ w → n < 2 ^ 64 → store w false n ≡ n
unfolding store
store-fits w n h b = rw (le→ltb (2 ^ 64 - 1) n (omega arith)) (mod-eq_of_lt h)

-- A number that fits the variable is read back from what %u printed, up to a byte that is no digit.
pub scan_number-decimal :
    (w n : ℕ) (rest : Bytes)
    → n < 2 ^ w
    → n < 2 ^ 64
    → Stops 10 rest
    → scan_number 10 w (decimal n ++ rest) ≡ some (n, rest)
unfolding decimal
scan_number-decimal w n rest h b s =
    scan_number-print 10 (omega arith) (omega arith) w 19 n rest (omega arith) s
    ∙ ap (λ m. some (m, rest)) (store-fits w n h b)

-- The same of %0kx and %x.
pub scan_number-hex_pad :
    (w k n : ℕ) (rest : Bytes)
    → n < 2 ^ w
    → n < 2 ^ 64
    → Stops 16 rest
    → scan_number 16 w (hex_pad k n ++ rest) ≡ some (n, rest)
unfolding hex_pad hexadecimal
scan_number-hex_pad w k n rest h b s =
    scan_number-pad 16 (omega arith) (omega arith) w (k - length (digits 16 16 n)) 15 n rest
      (omega arith) s
    ∙ ap (λ m. some (m, rest)) (store-fits w n h b)
