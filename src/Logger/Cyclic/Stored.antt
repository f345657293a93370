-- ===== src/Logger/Cyclic/Stored.antt =====
-- src/util/logger.c: what is read back of a write in place.
use static_fire.Base.{
  Bytes, ℕ, zero, suc, ◌+◌, ◌≤◌, Bool, true, false, Option, none, some, [], ◌∷◌, ◌≡◌, refl, ap,
  arith, ltb, ◌==◌, inl, inr, if◌then◌else◌, length, take, drop, Bool-cases,
}
use static_fire.Logger.{Logger, Outside, write_at}
use static_fire.Logger.Cyclic.{
  reserve, advance, prepare_cyclic_mode, put_bytes, put_reserved, write_reserved, write_open,
  write_cyclic_bytes,
}

-- What was written is read back at its offset.
take-write_at :
    (at : ℕ) (text file : Bytes) → take (length text) (drop at (write_at at text file)) ≡ text
unfolding write_at
take-write_at zero [] file = refl
take-write_at zero (b ∷ bs) [] = ap (λ s. b ∷ s) (take-write_at zero bs [])
take-write_at zero (b ∷ bs) (c ∷ file) = ap (λ s. b ∷ s) (take-write_at zero bs file)
take-write_at (suc at) [] file = refl
take-write_at (suc at) (b ∷ bs) [] = take-write_at at (b ∷ bs) []
take-write_at (suc at) (b ∷ bs) (c ∷ file) = take-write_at at (b ∷ bs) file

take-all : (n : ℕ) (s : Bytes) → length s ≤ n → take n s ≡ s
take-all zero [] h = refl
take-all zero (c ∷ s) h = absurd (omega arith)
take-all (suc n) [] h = refl
take-all (suc n) (c ∷ s) h = ap (λ t. c ∷ t) (take-all n s (omega arith))

-- The bytes stand in the file in one piece, inside the capacity.
abbrev pub HasPiece : Bytes → Logger → Type 0
HasPiece text l =
    (at : ℕ) × (file : Bytes) × (l.fp ≡ some file)
    × (take (length text) (drop at file) ≡ text)
    × (at + length text ≤ l.cyclic_capacity_bytes)

abbrev Stored : Bytes → Logger × Bool → Type 0
Stored text r = r.1 ≡ true → HasPiece text r.0

module _ (out : Outside) where
  put_bytes-Stored :
      (text file : Bytes) (l : Logger)
      → l.cyclic_write_offset + length text ≤ l.cyclic_capacity_bytes
      → Stored text (put_bytes out file text l)
  unfolding put_bytes advance
  put_bytes-Stored text file l room =
      let count = out.taken (suc l.calls) in
      let at = l.cyclic_write_offset in
      elim (Bool-cases (out.seek_ok l.calls)) [
        | inr h ↦ rw h (λ e. absurd (cc e))
        | inl h ↦ elim (Bool-cases (ltb count (length text))) [
          | inl k ↦ rw (h, k) (λ e. absurd (cc e))
          | inr k ↦
              rw (h, k)
                (λ _. (
                  at,
                  write_at at (take count text) file,
                  refl,
                  rw (take-all count text (ground arith)) (take-write_at at text file),
                  room,
                ))
        ]
      ]

  put_reserved-Stored :
      (text : Bytes) (o : Option Bytes) (l : Logger) → Stored text (put_reserved out o text l)
  unfolding put_reserved
  put_reserved-Stored text none l = λ e. absurd (cc e)
  put_reserved-Stored text (some file) l =
      put_bytes-Stored text file (reserve (length text) l) (unfold reserve in ground arith)

  write_reserved-Stored :
      (text : Bytes) (r : Logger × Bool) → Stored text (write_reserved out text r)
  unfolding write_reserved
  write_reserved-Stored text (l, false) = λ e. absurd (cc e)
  write_reserved-Stored text (l, true) = put_reserved-Stored text l.fp l

  write-Stored :
      (c : ℕ) (text : Bytes) (l : Logger) → Stored (c ∷ text) (write_cyclic_bytes out (c ∷ text) l)
  unfolding write_cyclic_bytes
  write-Stored c text l = go l.fp
    where
      go : (o : Option Bytes) → Stored (c ∷ text) (write_open out o (c ∷ text) l)
      go none = unfold write_open in λ e. absurd (cc e)
      go (some file) =
          unfold write_open in
          write_reserved-Stored (c ∷ text)
            (if l.cyclic_capacity_bytes == 0 then prepare_cyclic_mode out l else (l, true))

  -- A write in place that succeeds can be read back: its bytes stand in the file in one piece, inside
  -- the capacity.
  pub write_cyclic_bytes-HasPiece :
      (c : ℕ) (text : Bytes) (l : Logger)
      → (write_cyclic_bytes out (c ∷ text) l).1 ≡ true
      → HasPiece (c ∷ text) (write_cyclic_bytes out (c ∷ text) l).0
  write_cyclic_bytes-HasPiece c text l e = write-Stored c text l e
