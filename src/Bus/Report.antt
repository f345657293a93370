-- ===== src/Bus/Report.antt =====
-- src/can/can_bus.c: a report against a definition that does not loop over all ids.
use static_fire.Base.Int.{ℤ, is_negative, to_ℕ}
use static_fire.Base.{
  Bytes, ℕ, zero, suc, ◌+◌, ◌-◌, ◌%◌, ◌^◌, ◌<◌, Bool, true, false, not, ◌&&◌, ◌||◌, List, [], ◌∷◌,
  ◌++◌, ◌≡◌, refl, ◌∙◌, ap, arith, ltb, leb, ◌==◌, if◌then◌else◌, length, length-append, take,
  append_assoc, append-nil, Bool-cases, inl, inr,
}
use static_fire.App.{App, can_id_count}
use static_fire.Bus.{update, entry_text, format_from, format_dirty}

take-append : (a b : Bytes) (n : ℕ) → take (length a + n) (a ++ b) ≡ a ++ take n b
take-append [] b n = let e : 0 + n ≡ n = omega arith in rw e refl
take-append (c ∷ a) b n =
    let e : suc (length a) + n ≡ suc (length a + n) = omega arith in
    rw e (ap (λ s. c ∷ s) (take-append a b n))

module _ (values : ℕ → ℤ) where
  -- The ids from `id` on that have a new value, in ascending order.
  abbrev pub pending : ℕ → ℕ → (ℕ → Bool) → List ℕ
  pending zero id dirty = []
  pending (suc rounds) id dirty =
      let rest = pending rounds (id + 1) dirty in
      if dirty id && not (is_negative (values id)) then id ∷ rest else rest

  abbrev pub entry : ℕ → Bytes
  entry id = entry_text id (to_ℕ (values id) % 2 ^ 16)

  -- As many of them as there is room for, each with a byte behind it.
  abbrev pub fitting : ℕ → List ℕ → List ℕ
  fitting room [] = []
  fitting room (id ∷ ids) =
      let rest = fitting (room - suc (length (entry id))) ids in
      if ltb (suc (length (entry id))) room then id ∷ rest else []

  -- Their entries, with a separator between two.
  abbrev pub joined : List ℕ → Bytes
  joined [] = []
  joined (id ∷ []) = entry id
  joined (id ∷ next ∷ ids) = entry id ++ (b'|' ∷ joined (next ∷ ids))

  -- The same with a separator behind each.
  abbrev closed : List ℕ → Bytes
  closed [] = []
  closed (id ∷ ids) = entry id ++ (b'|' ∷ closed ids)

  take-closed : (ids : List ℕ) → take (length (closed ids) - 1) (closed ids) ≡ joined ids
  take-closed [] = refl
  take-closed (id ∷ []) =
      let e = take-append (entry id) (b'|' ∷ []) 0 in
      let n : length (entry id ++ (b'|' ∷ [])) - 1 ≡ length (entry id) + 0 =
        rw (length-append (entry id) (b'|' ∷ [])) (omega arith) in
      rw n (e ∙ append-nil (entry id))
  take-closed (id ∷ next ∷ ids) =
      let rest = closed (next ∷ ids) in
      let some_bytes : 0 < length rest =
        rw (length-append (entry next) (b'|' ∷ closed ids)) (omega arith) in
      let n : length (entry id ++ (b'|' ∷ rest)) - 1 ≡ length (entry id) + suc (length rest - 1) =
        rw (length-append (entry id) (b'|' ∷ rest)) (omega (arith, some_bytes)) in
      rw n (
        take-append (entry id) (b'|' ∷ rest) (suc (length rest - 1))
        ∙ ap (λ t. entry id ++ (b'|' ∷ t)) (take-closed (next ∷ ids)))

  pending-later :
      (rounds id below : ℕ) (dirty : ℕ → Bool)
      → below < id
      → pending rounds id (update dirty below false) ≡ pending rounds id dirty
  pending-later zero id below dirty h = refl
  pending-later (suc rounds) id below dirty h =
      let other : (below == id) ≡ false = ground arith in
      rw (other, pending-later rounds (id + 1) below dirty (omega arith)) refl

-- The flags without those of these ids.
abbrev pub cleared : List ℕ → (ℕ → Bool) → ℕ → Bool
cleared [] dirty = dirty
cleared (id ∷ ids) dirty = cleared ids (update dirty id false)

-- The text and the state: all that is pending and fits is reported and no longer pending.
abbrev pub report : App → ℕ → Bytes × App
report s capacity =
    let sent = fitting s.can_values capacity (pending s.can_values can_id_count 0 s.can_dirty) in
    (joined s.can_values sent, record s { can_dirty = cleared sent s.can_dirty })

regroup :
    (buffer text rest : Bytes)
    → (buffer ++ (text ++ (b'|' ∷ []))) ++ rest ≡ buffer ++ (text ++ (b'|' ∷ rest))
regroup buffer text rest =
    append_assoc buffer (text ++ (b'|' ∷ [])) rest
    ∙ ap (λ (t : Bytes). buffer ++ t) (append_assoc text (b'|' ∷ []) rest)

with_text : {a b : Bytes} {t : App} → a ≡ b → ◌≡◌ {A = Bytes × App} (a, t) (b, t)
with_text {a} {b} {t} e = ap (λ (x : Bytes). (x, t)) e

format_from-fitting :
    (rounds id capacity : ℕ) (s : App) (buffer : Bytes)
    → let sent =
        fitting s.can_values
          (capacity - length buffer)
          (pending s.can_values rounds id s.can_dirty) in
      format_from rounds id capacity s buffer
      ≡ (buffer ++ closed s.can_values sent, record s { can_dirty = cleared sent s.can_dirty })
unfolding format_from
format_from-fitting zero id capacity s buffer = rw append-nil refl
format_from-fitting (suc rounds) id capacity s buffer =
    let text = entry s.can_values id in
    let written = text ++ (b'|' ∷ []) in
    let size : length written ≡ suc (length text) =
      rw (length-append text (b'|' ∷ [])) (omega arith) in
    let skip = format_from-fitting rounds (id + 1) capacity s buffer in
    elim (Bool-cases (not (s.can_dirty id) || is_negative (s.can_values id))) [
      | inl h ↦
          let p : (s.can_dirty id && not (is_negative (s.can_values id))) ≡ false = ground arith in
          rw (h, p) skip
      | inr h ↦
          let p : (s.can_dirty id && not (is_negative (s.can_values id))) ≡ true = ground arith in
          elim (Bool-cases (leb (capacity - length buffer) (length written))) [
            | inl k ↦
                let r : ltb (suc (length text)) (capacity - length buffer) ≡ false =
                  ground (arith, size) in
                rw (h, p, k, r, append-nil) refl
            | inr k ↦
                let r : ltb (suc (length text)) (capacity - length buffer) ≡ true =
                  ground (arith, size) in
                let room : capacity - length (buffer ++ written)
                    ≡ capacity - length buffer - suc (length text) =
                  rw (length-append buffer written, size) (omega arith) in
                let later =
                  pending-later s.can_values rounds (id + 1) id s.can_dirty (omega arith) in
                let put =
                  format_from-fitting rounds (id + 1) capacity
                    (record s { can_dirty = update s.can_dirty id false }) (buffer ++ written) in
                rw (h, p, k, r) (rw (room, later) at put ∙ with_text (regroup buffer text _))
          ]
    ]

fitting-zero : (values : ℕ → ℤ) (ids : List ℕ) → fitting values 0 ids ≡ []
fitting-zero values [] = refl
fitting-zero values (id ∷ ids) = ground arith

-- What is done with the buffer behind the loop.
last_taken_off :
    (s : App) (capacity : ℕ) (ids : List ℕ) (r : Bytes × App)
    → let sent = fitting s.can_values capacity ids in
      let after = record s { can_dirty = cleared sent s.can_dirty } in
      r ≡ (closed s.can_values sent, after)
      → if◌then◌else◌ {A = Bytes × App} (capacity == 0) ([], s) (take (length r.0 - 1) r.0, r.1)
        ≡ (joined s.can_values sent, after)
last_taken_off s capacity ids r e = elim (Bool-cases (capacity == 0)) [
  | inl h ↦ let z : capacity ≡ 0 = ground arith in rw (z, fitting-zero s.can_values ids) refl
  | inr h ↦ rw (h, e) (with_text (take-closed s.can_values (fitting s.can_values capacity ids)))
]

-- The whole, for a loop of so many rounds.
format_rounds :
    (rounds : ℕ) (s : App) (capacity : ℕ)
    → let sent = fitting s.can_values capacity (pending s.can_values rounds 0 s.can_dirty) in
      let r = format_from rounds 0 capacity s [] in
      if◌then◌else◌ {A = Bytes × App} (capacity == 0) ([], s) (take (length r.0 - 1) r.0, r.1)
      ≡ (joined s.can_values sent, record s { can_dirty = cleared sent s.can_dirty })
format_rounds rounds s capacity =
    let all : capacity - 0 ≡ capacity = omega arith in
    let e = format_from-fitting rounds 0 capacity s [] in
    last_taken_off s capacity (pending s.can_values rounds 0 s.can_dirty)
      (format_from rounds 0 capacity s []) (rw all at e)

-- A report is the text and the state of the definition above, for any table and any capacity: it has
-- the entries of the ids that are pending, in ascending order with separators between them, as many
-- of the first as fit, and exactly these are pending no longer.
pub format_dirty-report : (s : App) (capacity : ℕ) → format_dirty s capacity ≡ report s capacity
unfolding format_dirty
format_dirty-report s capacity = format_rounds can_id_count s capacity

-- So the state is the old one but for the flags.
pub format_dirty-flags :
    (s : App) (capacity : ℕ)
    → (flags : ℕ → Bool) × ((format_dirty s capacity).1 ≡ record s { can_dirty = flags })
format_dirty-flags s capacity = (_, ap (λ (r : Bytes × App). r.1) (format_dirty-report s capacity))
