-- ===== src/Wiggle/Slots.antt =====
-- src/control/wiggle.c: well-formed tables of slots, and what `find_slot` and `alloc_slot` find in
-- them.
use static_fire.Base.{
  ℕ, zero, suc, ◌≤◌, ◌<◌, Bool, true, false, Option, none, some, List, [], ◌∷◌, ◌≡◌, refl, inl, inr,
  arith, length, set, All, Bool-cases, ap, subst, sym, ◌∙◌, not,
}
use static_fire.App.{zero_slot}
use static_fire.Wiggle.{Slot, holds, find_slot, alloc_slot, or_alloc, next_index}

-- What `wiggle_start` checks of the arguments.
abbrev pub IsSlot : Slot → Type 0
IsSlot w = w.active ≡ true → (w.id ≤ 0x7FF) × (0 < w.period_ms)

abbrev pub Absent : ℕ → List Slot → Type 0
Absent id = All (λ w. holds id w ≡ false)

abbrev pub Distinct : List Slot → Type 0
Distinct [] = Unit {0}
Distinct (w ∷ ws) = (w.active ≡ true → Absent w.id ws) × Distinct ws

abbrev pub Idle : List Slot → Type 0
Idle = All (λ w. w.active ≡ false)

pub record IsTable (ws : List Slot) : Type 0 where
  pub sixteen : length ws ≡ 16
  pub slots : All IsSlot ws
  pub distinct : Distinct ws

pub next_index-some :
    (o : Option (ℕ × Slot)) {i : ℕ} {w : Slot}
    → next_index o ≡ some (i, w)
    → (j : ℕ) × (o ≡ some (j, w)) × (i ≡ suc j)
next_index-some none e = cc
next_index-some (some (j, v)) e = (j, ground arith, ground arith)

next_index-none : (o : Option (ℕ × Slot)) → next_index o ≡ none → o ≡ none
next_index-none none e = refl
next_index-none (some (j, v)) e = cc

pub find_slot-none : (id : ℕ) (ws : List Slot) → find_slot id ws ≡ none → Absent id ws
unfolding find_slot
find_slot-none id [] e = tt
find_slot-none id (w ∷ ws) e = elim (Bool-cases (holds id w)) [
  | inl h ↦ absurd (ground (arith))
  | inr h ↦ (h, find_slot-none id ws (next_index-none (find_slot id ws) (ground arith)))
]

pub holds-eq : (id : ℕ) (w : Slot) → holds id w ≡ true → (w.active ≡ true) × (w.id ≡ id)
holds-eq id w h = ground arith

-- The first slot that passes a test, at its index.
pub data First (test : Slot → Bool) : List Slot → ℕ → Slot → Type 0 where
  here : {w : Slot} {ws : List Slot} → test w ≡ true → First test (w ∷ ws) zero w
  there :
      {x w : Slot} {ws : List Slot} {i : ℕ}
      → test x ≡ false
      → First test ws i w
      → First test (x ∷ ws) (suc i) w

module _ (test : Slot → Bool) {w : Slot} {i : ℕ} where
  First-head : (x : Slot) (ws : List Slot) → test x ≡ true → x ≡ w → 0 ≡ i → First test (x ∷ ws) i w
  First-head x ws h e z =
      subst (λ k. First test (x ∷ ws) k w) z (subst (First test (x ∷ ws) 0) e (here h))

  First-tail :
      (x : Slot) (ws : List Slot) {j : ℕ}
      → test x ≡ false
      → First test ws j w
      → i ≡ suc j
      → First test (x ∷ ws) i w
  First-tail x ws h f e = subst (λ k. First test (x ∷ ws) k w) (sym e) (there h f)

pub find_slot-First :
    (id : ℕ) (ws : List Slot) {i : ℕ} {w : Slot}
    → find_slot id ws ≡ some (i, w)
    → First (holds id) ws i w
unfolding find_slot
find_slot-First id [] e = cc
find_slot-First id (x ∷ ws) e = elim (Bool-cases (holds id x)) [
  | inl h ↦ First-head (holds id) x ws h (ground arith) (ground arith)
  | inr h ↦
      let (j, found, at) = next_index-some (find_slot id ws) (ground arith) in
      First-tail (holds id) x ws h (find_slot-First id ws found) at
]

pub alloc_slot-First :
    (ws : List Slot) {i : ℕ} {w : Slot}
    → alloc_slot ws ≡ some (i, w)
    → First (λ w. not w.active) ws i w
unfolding alloc_slot
alloc_slot-First [] e = cc
alloc_slot-First (x ∷ ws) {i} {w} e = elim (Bool-cases x.active) [
  | inr h ↦ First-head (λ w. not w.active) x ws (ground arith) (ground arith) (ground arith)
  | inl h ↦
      let e' : next_index (alloc_slot ws) ≡ some (i, w) = ground arith in
      let (j, found, at) = next_index-some (alloc_slot ws) e' in
      First-tail (λ w. not w.active) x ws (ground arith) (alloc_slot-First ws found) at
]

pub First-test :
    {test : Slot → Bool} {ws : List Slot} {i : ℕ} {w : Slot} → First test ws i w → test w ≡ true
First-test (here h) = h
First-test (there h f) = First-test f

pub length-set : (ws : List Slot) (i : ℕ) (w : Slot) → length (set ws i w) ≡ length ws
length-set [] i w = refl
length-set (x ∷ ws) zero w = refl
length-set (x ∷ ws) (suc i) w = ap suc (length-set ws i w)

module _ {κ} (P : Slot → Type κ) where
  pub All-set : (ws : List Slot) (i : ℕ) (w : Slot) → All P ws → P w → All P (set ws i w)
  All-set [] i w a p = tt
  All-set (x ∷ ws) zero w a p = (p, a.1)
  All-set (x ∷ ws) (suc i) w a p = (a.0, All-set ws i w a.1 p)

-- A slot whose id no other slot holds may be put anywhere.
pub Distinct-set-Absent :
    (id : ℕ) (ws : List Slot) (i : ℕ) (w : Slot)
    → (w.active ≡ true → w.id ≡ id)
    → Absent id ws
    → Distinct ws
    → Distinct (set ws i w)
Distinct-set-Absent id [] i w e a d = tt
Distinct-set-Absent id (x ∷ ws) zero w e a d = (λ h. rw (e h) a.1, d.1)
Distinct-set-Absent id (x ∷ ws) (suc i) w e a d = (
  λ h. All-set (λ v. holds x.id v ≡ false) ws i w (d.0 h) (ground (arith, a.0)),
  Distinct-set-Absent id ws i w e a.1 d.1,
)

-- So may one in the place of the slot that holds its id.
pub Distinct-set_found :
    (id : ℕ) {ws : List Slot} {i : ℕ} {v : Slot} (w : Slot)
    → First (holds id) ws i v
    → (w.active ≡ true → w.id ≡ id)
    → Distinct ws
    → Distinct (set ws i w)
Distinct-set_found id w (here {w = x} {ws} h) e d =
    let (on, same) = holds-eq id x h in
    (λ k. subst (λ n. Absent n ws) (same ∙ sym (e k)) (d.0 on), d.1)
Distinct-set_found id w (there {x} {ws} {i} h f) e d = (
  λ k. All-set (λ v. holds x.id v ≡ false) ws i w (d.0 k) (ground (arith, h)),
  Distinct-set_found id w f e d.1,
)

-- Without that slot nobody holds the id.
pub Absent-set_found :
    (id : ℕ) {ws : List Slot} {i : ℕ} {v : Slot}
    → First (holds id) ws i v
    → Distinct ws
    → Absent id (set ws i zero_slot)
Absent-set_found id (here {w = x} {ws} h) d =
    let (on, same) = holds-eq id x h in (refl, subst (λ n. Absent n ws) same (d.0 on))
Absent-set_found id (there h f) d = (h, Absent-set_found id f d.1)

-- A slot that is put where the id stood, or where no other slot holds the id, is found again.
pub find_slot-set_found :
    (id : ℕ) {ws : List Slot} {i : ℕ} {v : Slot} (w : Slot)
    → First (holds id) ws i v
    → holds id w ≡ true
    → find_slot id (set ws i w) ≡ some (i, w)
unfolding find_slot
find_slot-set_found id w (here h) e = rw e
find_slot-set_found id w (there {x} h f) e = rw h (rw (find_slot-set_found id w f e))

pub find_slot-set-Absent :
    (id : ℕ) {test : Slot → Bool} {ws : List Slot} {i : ℕ} {v : Slot} (w : Slot)
    → First test ws i v
    → holds id w ≡ true
    → Absent id ws
    → find_slot id (set ws i w) ≡ some (i, w)
unfolding find_slot
find_slot-set-Absent id w (here h) e a = rw e
find_slot-set-Absent id w (there {x} h f) e a = rw a.0 (rw (find_slot-set-Absent id w f e a.1))

abbrev pub Full : List Slot → Type 0
Full = All (λ w. w.active ≡ true)

alloc_slot-none : (ws : List Slot) → alloc_slot ws ≡ none → Full ws
unfolding alloc_slot
alloc_slot-none [] e = tt
alloc_slot-none (x ∷ ws) e = elim (Bool-cases x.active) [
  | inl h ↦ (h, alloc_slot-none ws (next_index-none (alloc_slot ws) (ground arith)))
  | inr h ↦ absurd (ground arith)
]

-- The slot that `wiggle_start` takes: the one of the id, else the first that is free, else none.
pub data Choice (id : ℕ) (ws : List Slot) : Option (ℕ × Slot) → Type 0 where
  full : Absent id ws → Full ws → Choice id ws none
  reuse : {i : ℕ} {w : Slot} → First (holds id) ws i w → Choice id ws (some (i, w))
  fresh :
      {i : ℕ} {w : Slot}
      → Absent id ws
      → First (λ v. not v.active) ws i w
      → Choice id ws (some (i, w))

alloc_slot-Choice :
    (id : ℕ) (ws : List Slot) (o : Option (ℕ × Slot))
    → alloc_slot ws ≡ o
    → Absent id ws
    → Choice id ws o
alloc_slot-Choice id ws none e a = full a (alloc_slot-none ws e)
alloc_slot-Choice id ws (some (i, w)) e a = fresh a (alloc_slot-First ws e)

find_slot-Choice :
    (id : ℕ) (ws : List Slot) (o : Option (ℕ × Slot))
    → find_slot id ws ≡ o
    → Choice id ws (or_alloc o ws)
unfolding or_alloc
find_slot-Choice id ws none e =
    alloc_slot-Choice id ws (alloc_slot ws) refl (find_slot-none id ws e)
find_slot-Choice id ws (some (i, w)) e = reuse (find_slot-First id ws e)

pub or_alloc-Choice : (id : ℕ) (ws : List Slot) → Choice id ws (or_alloc (find_slot id ws) ws)
or_alloc-Choice id ws = find_slot-Choice id ws (find_slot id ws) refl

-- The list of slots that `set` returns is a table again.
pub IsTable-set :
    (ws : List Slot) (i : ℕ) (w : Slot)
    → IsTable ws
    → IsSlot w
    → Distinct (set ws i w)
    → IsTable (set ws i w)
IsTable-set ws i w t ok d = record {
  sixteen = length-set ws i w ∙ t.sixteen;
  slots = All-set IsSlot ws i w t.slots ok;
  distinct = d;
}
