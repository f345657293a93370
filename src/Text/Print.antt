-- ===== src/Text/Print.antt =====
-- The conversions of `printf` that the program uses: %u and its kin, %03x, %04x.
use static_fire.Base.{
  Bytes, ℕ, zero, suc, ◌+◌, ◌-◌, ◌/◌, ◌%◌, [], ◌∷◌, ◌++◌, ltb, if◌then◌else◌, length, replicate,
  take,
}

unfoldable pub digit : ℕ → ℕ
digit d = if ltb d 10 then b'0' + d else b'a' + (d - 10)

-- The digits of a number, at most `fuel` of them.
unfoldable pub digits : ℕ → ℕ → ℕ → Bytes
unfolding digit
digits zero base n = []
digits (suc fuel) base n =
    let rest = digits fuel base (n / base) in
    if ltb n base then digit n ∷ [] else rest ++ (digit (n % base) ∷ [])

-- %u, %zu, %llu: a 64-bit number has at most twenty decimal digits.
unfoldable pub decimal : ℕ → Bytes
unfolding digits
decimal n = digits 20 10 n

-- %x: a 64-bit number has at most sixteen.
unfoldable pub hexadecimal : ℕ → Bytes
unfolding digits
hexadecimal n = digits 16 16 n

-- %0wx
unfoldable pub hex_pad : ℕ → ℕ → Bytes
unfolding hexadecimal
hex_pad w n = let s = hexadecimal n in replicate (w - length s) b'0' ++ s

-- What `snprintf` leaves in a buffer of `size` bytes, its terminating zero left out.
unfoldable pub truncated : ℕ → Bytes → Bytes
truncated size s = take (size - 1) s
