-- ===== src/Base/Lists.antt =====
-- Lists measured and indexed by native numbers, and predicates on all their entries.
use Prim.Native.Nat.{ℕ, zero, suc, ◌+◌, min}
use mathlib.Core.Path.{◌≡◌, refl, ap}
use mathlib.Core.List.{List, [], ◌∷◌, ◌++◌}
use mathlib.Core.Option.{Option, none, some}
use native.Mathlib.Omega.{arith}

-- Text is a list of bytes.
abbrev pub Bytes : Type 0
Bytes = List ℕ

module _ {ℓ} {A : Type ℓ} where
  abbrev pub length : List A → ℕ
  length [] = 0
  length (x ∷ xs) = suc (length xs)

  abbrev pub get_elem? : List A → ℕ → Option A
  get_elem? [] i = none
  get_elem? (x ∷ xs) zero = some x
  get_elem? (x ∷ xs) (suc i) = get_elem? xs i

  -- A write out of bounds changes nothing.
  abbrev pub set : List A → ℕ → A → List A
  set [] i v = []
  set (x ∷ xs) zero v = v ∷ xs
  set (x ∷ xs) (suc i) v = x ∷ set xs i v

  abbrev pub take : ℕ → List A → List A
  take zero xs = []
  take (suc n) [] = []
  take (suc n) (x ∷ xs) = x ∷ take n xs

  abbrev pub drop : ℕ → List A → List A
  drop zero xs = xs
  drop (suc n) [] = []
  drop (suc n) (x ∷ xs) = drop n xs

  abbrev pub replicate : ℕ → A → List A
  replicate zero a = []
  replicate (suc n) a = a ∷ replicate n a

  abbrev pub tail : List A → List A
  tail [] = []
  tail (x ∷ xs) = xs

  pub length-append : (xs ys : List A) → length (xs ++ ys) ≡ length xs + length ys
  length-append [] ys = omega arith
  length-append (x ∷ xs) ys = omega (arith, length-append xs ys)

  pub length-take : (n : ℕ) (xs : List A) → length (take n xs) ≡ min n (length xs)
  length-take zero xs = omega arith
  length-take (suc n) [] = omega arith
  length-take (suc n) (x ∷ xs) = omega (arith, length-take n xs)

  pub length-replicate : (n : ℕ) (a : A) → length (replicate n a) ≡ n
  length-replicate zero a = refl
  length-replicate (suc n) a = ap suc (length-replicate n a)

module _ {ℓ κ} {A : Type ℓ} (P : A → Type κ) where
  abbrev pub All : List A → Type κ
  All [] = Unit
  All (x ∷ xs) = P x × All xs

  pub All-append : (xs ys : List A) → All xs → All ys → All (xs ++ ys)
  All-append [] ys hx hy = hy
  All-append (x ∷ xs) ys hx hy = (hx.0, All-append xs ys hx.1 hy)

-- What a list may be in front of another one, when the whole is known.
module _ {ℓ} {A : Type ℓ} where
  pub append_self : (xs ys : List A) → ys ≡ xs ++ ys → xs ≡ []
  append_self [] ys e = refl
  append_self (x ∷ xs) ys e =
      let l = length-append (x ∷ xs) ys in absurd (omega (arith, ap length e, l))

  pub append_one : (xs ys : List A) (a : A) → a ∷ ys ≡ xs ++ ys → (x : A) × (xs ≡ x ∷ [])
  append_one [] ys a e = absurd (omega (arith, ap length e))
  append_one (x ∷ []) ys a e = (x, refl)
  append_one (x ∷ y ∷ xs) ys a e =
      let l = length-append (x ∷ y ∷ xs) ys in absurd (omega (arith, ap length e, l))

  pub append_only :
      (xs ys : List A) (a b : A) → a ∷ [] ≡ xs ++ (b ∷ ys) → (xs ≡ []) × (ys ≡ []) × (a ≡ b)
  append_only [] ys a b e = (refl, cc e, cc e)
  append_only (x ∷ xs) ys a b e =
      let l = length-append (x ∷ xs) (b ∷ ys) in absurd (omega (arith, ap length e, l))

  pub append_none : (xs ys : List A) (b : A) → [] ≡ xs ++ (b ∷ ys) → ⊥
  append_none xs ys b e = let l = length-append xs (b ∷ ys) in omega (arith, ap length e, l)
