-- ===== src/Wiggle/Lookup.antt =====
-- src/control/wiggle.c: the table of slots seen as a map from ids, whatever slot holds one.
use static_fire.Base.{
  ℕ, ◌+◌, ◌%◌, ◌^◌, true, false, not, Option, none, some, List, [], ◌∷◌, ◌≡◌, refl, ◌∙◌, ap, arith,
  ltb, ◌==◌, if◌then◌else◌, map, set, Bool-cases, inl, inr, ◌⊎◌,
}
use static_fire.App.{zero_slot}
use static_fire.Wiggle.Ticked.{slot_after}
use static_fire.Wiggle.Slots.{Absent, Distinct, Idle, First, here, there, holds-eq}
use static_fire.Wiggle.{Slot, holds, next_value, is_over}

-- The active slot of an id.
abbrev pub lookup : List Slot → ℕ → Option Slot
lookup [] id = none
lookup (w ∷ ws) id = if holds id w then some w else lookup ws id

-- A map with another entry at one id.
abbrev pub put : (ℕ → Option Slot) → ℕ → Option Slot → ℕ → Option Slot
put table id new k = if id == k then new else table k

-- What a tick at `now` does to an entry: it is removed when its time is over, and toggled when it is due.
abbrev pub ticked : ℕ → Option Slot → Option Slot
ticked now none = none
ticked now (some w) =
    if is_over now w
    then none
    else if ltb now w.next_toggle_ms
    then some w
    else some
        (record w { current_value = next_value w; next_toggle_ms = (now + w.period_ms) % 2 ^ 64 })

pub lookup-Absent : (id : ℕ) (ws : List Slot) → Absent id ws → lookup ws id ≡ none
lookup-Absent id [] a = refl
lookup-Absent id (w ∷ ws) a = rw a.0 (lookup-Absent id ws a.1)

pub lookup-First :
    (id : ℕ) {ws : List Slot} {i : ℕ} {w : Slot} → First (holds id) ws i w → lookup ws id ≡ some w
lookup-First id (here h) = rw h refl
lookup-First id (there {x} {w} {ws} h f) = rw h (lookup-First id f)

pub lookup-Idle : (ws : List Slot) (id : ℕ) → Idle ws → lookup ws id ≡ none
lookup-Idle [] id h = refl
lookup-Idle (w ∷ ws) id h =
    let off : holds id w ≡ false = ground (arith, h.0) in rw off (lookup-Idle ws id h.1)

-- A slot that is active for an id, in the place of the one that held it.
pub lookup-set_found :
    (id : ℕ) {ws : List Slot} {i : ℕ} {v : Slot} (w : Slot) (k : ℕ)
    → First (holds id) ws i v
    → w.active ≡ true
    → w.id ≡ id
    → lookup (set ws i w) k ≡ put (lookup ws) id (some w) k
lookup-set_found id w k (here {w = x} {ws} h) a e = ground (arith, holds-eq id x h)
lookup-set_found id w k (there {x} {ws} {i} h f) a e =
    ground (arith, h, lookup-set_found id w k f a e)

-- In the place of one that is free, where none held the id.
pub lookup-set_free :
    (id : ℕ) {ws : List Slot} {i : ℕ} {v : Slot} (w : Slot) (k : ℕ)
    → First (λ x. not x.active) ws i v
    → Absent id ws
    → w.active ≡ true
    → w.id ≡ id
    → lookup (set ws i w) k ≡ put (lookup ws) id (some w) k
lookup-set_free id w k (here {w = x} {ws} h) ab a e = ground (arith, h)
lookup-set_free id w k (there {x} {ws} {i} h f) ab a e =
    ground (arith, ab.0, lookup-set_free id w k f ab.1 a e)

-- A slot that is cleared.
pub lookup-set_cleared :
    (id : ℕ) {ws : List Slot} {i : ℕ} {v : Slot} (k : ℕ)
    → First (holds id) ws i v
    → Distinct ws
    → lookup (set ws i zero_slot) k ≡ put (lookup ws) id none k
lookup-set_cleared id k (here {w = x} {ws} h) d =
    let (on, same) = holds-eq id x h in
    let gone : lookup ws id ≡ none = rw⁻¹ same (lookup-Absent x.id ws (d.0 on)) in
    elim (Bool-cases (id == k)) [
      | inl e ↦ let at : id ≡ k = ground arith in rw (e) (rw at at gone)
      | inr e ↦ ground (arith, same)
    ]
lookup-set_cleared id k (there {x} {ws} {i} h f) d =
    ground (arith, h, lookup-set_cleared id k f d.1)

slot_after-off : (now k : ℕ) (w : Slot) → holds k w ≡ false → holds k (slot_after now w) ≡ false
unfolding slot_after
slot_after-off now k w h = ground (arith, h)

-- What an active slot becomes, as an entry.
slot_after-ticked :
    (now k : ℕ) (w : Slot)
    → holds k w ≡ true
    → ((slot_after now w ≡ zero_slot) × (ticked now (some w) ≡ none))
      ⊎ ((holds k (slot_after now w) ≡ true) × (ticked now (some w) ≡ some (slot_after now w)))
unfolding slot_after
slot_after-ticked now k w h = elim (Bool-cases (is_over now w)) [
  | inl o ↦ inl (ground (arith, h, o), rw o refl)
  | inr o ↦ elim (Bool-cases (ltb now w.next_toggle_ms)) [
    | inl t ↦ inr (ground (arith, h, o, t), ground (arith, h, o, t))
    | inr t ↦ inr (ground (arith, h, o, t), ground (arith, h, o, t))
  ]
]

-- A tick of the slots is a tick of the map.
pub lookup-ticked :
    (now : ℕ) (ws : List Slot) (k : ℕ)
    → Distinct ws
    → lookup (map (slot_after now) ws) k ≡ ticked now (lookup ws k)
lookup-ticked now [] k d = refl
lookup-ticked now (w ∷ ws) k d =
    let rest = lookup-ticked now ws k d.1 in
    elim (Bool-cases (holds k w)) [
      | inr h ↦ rw (h, slot_after-off now k w h) rest
      | inl h ↦
          let (on, same) = holds-eq k w h in
          let gone : lookup ws k ≡ none = rw⁻¹ same (lookup-Absent w.id ws (d.0 on)) in
          elim (slot_after-ticked now k w h) [
            | inl (e, t) ↦ rw (h, e, t) (rest ∙ ap (ticked now) gone)
            | inr (e, t) ↦ rw (h, e, t) refl
          ]
    ]
