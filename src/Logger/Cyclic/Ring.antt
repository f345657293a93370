-- ===== src/Logger/Cyclic/Ring.antt =====
-- src/util/logger.c: the bounds of writing in place.
use static_fire.Base.{
  Bytes, ℕ, zero, suc, ◌+◌, ◌-◌, ◌≤◌, ◌<◌, Bool, true, false, Option, none, some, [], ◌∷◌, ◌≡◌,
  refl, arith, ltb, ◌==◌, ◌⊎◌, inl, inr, if◌then◌else◌, length, length-take, take, Bool-cases,
}
use static_fire.Logger.{Logger, Outside, called, write_at}
use static_fire.Logger.Cyclic.{
  with_capacity, reserve, advance, prepare_open, prepare_cyclic_mode, put_bytes, put_reserved,
  write_reserved, write_open, write_cyclic_bytes,
}

-- A file grows only as far as the write reaches.
length-write_at :
    (at : ℕ) (text file : Bytes) (cap : ℕ)
    → at + length text ≤ cap
    → length file ≤ cap
    → length (write_at at text file) ≤ cap
unfolding write_at
length-write_at zero [] file cap h k = k
length-write_at zero (b ∷ bs) [] cap h k =
    omega (arith, length-write_at zero bs [] (cap - 1) (omega arith) (omega arith))
length-write_at zero (b ∷ bs) (c ∷ file) cap h k =
    omega (arith, length-write_at zero bs file (cap - 1) (omega arith) (omega arith))
length-write_at (suc at) [] file cap h k = k
length-write_at (suc at) (b ∷ bs) [] cap h k =
    omega (arith, length-write_at at (b ∷ bs) [] (cap - 1) (omega arith) (omega arith))
length-write_at (suc at) (b ∷ bs) (c ∷ file) cap h k =
    omega (arith, length-write_at at (b ∷ bs) file (cap - 1) (omega arith) (omega arith))

-- The file does not reach behind the capacity, if one is set.
abbrev pub Inside : Option Bytes → ℕ → Type 0
Inside none cap = Unit
Inside (some file) cap = (cap ≡ 0) ⊎ (length file ≤ cap)

-- The offset stands inside the capacity, or neither is set.
pub record IsRing (l : Logger) : Type 0 where
  pub bounds :
      ((l.cyclic_capacity_bytes ≡ 0) × (l.cyclic_write_offset ≡ 0))
      ⊎ (l.cyclic_write_offset < l.cyclic_capacity_bytes)
  pub inside : Inside l.fp l.cyclic_capacity_bytes

IsRing-called : (l : Logger) → IsRing l → IsRing (called l)
IsRing-called l x = record { bounds = x.bounds; inside = x.inside }

-- The state in which `put_bytes` writes `len` bytes of the file.
record IsReserved (len : ℕ) (file : Bytes) (l : Logger) : Type 0 where
  some_bytes : 0 < len
  room : l.cyclic_write_offset + len ≤ l.cyclic_capacity_bytes
  file_inside : length file ≤ l.cyclic_capacity_bytes
  is_file : l.fp ≡ some file

reserve-IsReserved :
    (len : ℕ) (file : Bytes) (l : Logger)
    → 0 < len
    → 0 < l.cyclic_capacity_bytes
    → l.fp ≡ some file
    → IsRing l
    → IsReserved len file (reserve len l)
unfolding reserve
reserve-IsReserved len file l p c e x =
    let inside : Inside (some file) l.cyclic_capacity_bytes = rw e at x.inside in
    record {
      some_bytes = p;
      room = ground arith;
      file_inside = ground (arith, inside);
      is_file = e;
    }

IsReserved-IsRing : (len : ℕ) (file : Bytes) (l : Logger) → IsReserved len file l → IsRing l
IsReserved-IsRing len file l r = record {
  bounds = inr (omega (arith, r.some_bytes, r.room));
  inside = rw r.is_file (inr r.file_inside);
}

length-take-le : (n : ℕ) (s : Bytes) → length (take n s) ≤ length s
length-take-le n s = rw (length-take n s) (omega arith)

advance-IsRing :
    (len : ℕ) (l : Logger)
    → 0 < l.cyclic_capacity_bytes
    → Inside l.fp l.cyclic_capacity_bytes
    → IsRing (advance len l)
unfolding advance
advance-IsRing len l c i = record { bounds = ground arith; inside = i }

module _ (out : Outside) where
  put_bytes-IsRing :
      (text file : Bytes) (l : Logger)
      → IsReserved (length text) file l
      → IsRing (put_bytes out file text l).0
  unfolding put_bytes
  put_bytes-IsRing text file l r =
      let old = IsReserved-IsRing (length text) file l r in
      let count = out.taken (suc l.calls) in
      let written = record (called (called l)) {
        fp = some (write_at l.cyclic_write_offset (take count text) file);
      } in
      let fits =
        length-write_at l.cyclic_write_offset (take count text) file l.cyclic_capacity_bytes
          (omega (arith, r.room, length-take-le count text)) r.file_inside in
      elim (Bool-cases (out.seek_ok l.calls)) [
        | inr h ↦ rw h (IsRing-called l old)
        | inl h ↦ elim (Bool-cases (ltb count (length text))) [
          | inl k ↦ rw (h, k) (record { bounds = old.bounds; inside = inr fits })
          | inr k ↦
              rw (h, k)
                (IsRing-called _ (
                  advance-IsRing (length text) written (omega (arith, r.some_bytes, r.room))
                    (inr fits)))
        ]
      ]

  -- After the preparation the file is the same, and a capacity is set if the call succeeded.
  record IsPrepared (l : Logger) (r : Logger × Bool) : Type 0 where
    ring : IsRing r.0
    same_file : r.0.fp ≡ l.fp
    capacity : r.1 ≡ true → 0 < r.0.cyclic_capacity_bytes

  with_capacity-IsRing :
      (file : Bytes) (l : Logger) → l.fp ≡ some file → IsRing (with_capacity (length file) l)
  unfolding with_capacity
  with_capacity-IsRing file l e = record { bounds = ground arith; inside = rw e (ground arith) }

  prepare_open-IsPrepared :
      (o : Option Bytes) (l : Logger) → l.fp ≡ o → IsRing l → IsPrepared l (prepare_open out o l)
  unfolding prepare_open
  prepare_open-IsPrepared none l e x = record {
    ring = x;
    same_file = refl;
    capacity = λ h. absurd (cc h);
  }
  prepare_open-IsPrepared (some file) l e x = elim (Bool-cases (out.flush_ok l.calls)) [
    | inr h ↦
        rw h (record { ring = IsRing-called l x; same_file = refl; capacity = λ k. absurd (cc k) })
    | inl h ↦ elim (Bool-cases (out.fstat_ok (suc l.calls))) [
      | inr j ↦
          rw (h, j)
            (record {
              ring = IsRing-called (called l) (IsRing-called l x);
              same_file = refl;
              capacity = λ k. absurd (cc k);
            })
      | inl j ↦
          rw (h, j)
            (record {
              ring = with_capacity-IsRing file (called (called l)) e;
              same_file = unfold with_capacity in refl;
              capacity = λ _. unfold with_capacity in ground arith;
            })
    ]
  ]

  put_reserved-IsRing :
      (text : Bytes) (o : Option Bytes) (l : Logger)
      → l.fp ≡ o
      → 0 < length text
      → 0 < l.cyclic_capacity_bytes
      → IsRing l
      → IsRing (put_reserved out o text l).0
  unfolding put_reserved
  put_reserved-IsRing text none l e p c x = x
  put_reserved-IsRing text (some file) l e p c x =
      put_bytes-IsRing text file (reserve (length text) l)
        (reserve-IsReserved (length text) file l p c e x)

  write_reserved-IsRing :
      (text file : Bytes) (l : Logger) (r : Logger × Bool)
      → 0 < length text
      → l.fp ≡ some file
      → IsPrepared l r
      → IsRing (write_reserved out text r).0
  unfolding write_reserved
  write_reserved-IsRing text file l (s, false) p e x = x.ring
  write_reserved-IsRing text file l (s, true) p e x =
      put_reserved-IsRing text s.fp s refl p (x.capacity refl) x.ring

  prepared :
      (l : Logger)
      → IsRing l
      → IsPrepared l (if l.cyclic_capacity_bytes == 0 then prepare_cyclic_mode out l else (l, true))
  prepared l x = elim (Bool-cases (l.cyclic_capacity_bytes == 0)) [
    | inl h ↦ rw h (unfold prepare_cyclic_mode in prepare_open-IsPrepared l.fp l refl x)
    | inr h ↦ rw h (record { ring = x; same_file = refl; capacity = λ _. ground arith })
  ]

  pub prepare_cyclic_mode-IsRing : (l : Logger) → IsRing l → IsRing (prepare_cyclic_mode out l).0
  unfolding prepare_cyclic_mode
  prepare_cyclic_mode-IsRing l x = (prepare_open-IsPrepared l.fp l refl x).ring

  -- Writing in place, whether it succeeds, stops at an error or writes in part, keeps this: where a
  -- capacity is set the offset lies inside it and the file does not reach behind it, and without one
  -- the offset is 0.
  pub write_cyclic_bytes-IsRing :
      (text : Bytes) (l : Logger) → IsRing l → IsRing (write_cyclic_bytes out text l).0
  unfolding write_cyclic_bytes
  write_cyclic_bytes-IsRing text l x = go l.fp refl text
    where
      go : (o : Option Bytes) → l.fp ≡ o → (t : Bytes) → IsRing (write_open out o t l).0
      go none e t = unfold write_open in x
      go (some file) e [] = unfold write_open in x
      go (some file) e (c ∷ t) =
          unfold write_open in write_reserved-IsRing (c ∷ t) file l _ (omega arith) e (prepared l x)
