-- ===== src/Text/Bounds.antt =====
-- The bounds of what `sscanf` assigns.
use native.Mathlib.Nat.{mod-lt, one-le-pow}
use static_fire.Base.{
  Bytes, ℕ, ◌<◌, ◌^◌, Bool, true, false, Option, none, some, List, [], ◌∷◌, arith,
}
use static_fire.Text.Scan.{
  Directive, hex, dec, literal, char, store, stored, magnitude, signed_number, scan_number,
  scan_literal, sscanf, skip_space,
}

two_pow_pos : (w : ℕ) → 0 < 2 ^ w
two_pow_pos w = one-le-pow w 2 (omega arith)

store-lt : (w : ℕ) (n : Bool) (m : ℕ) → store w n m < 2 ^ w
unfolding store
store-lt w n m = mod-lt _ (two_pow_pos w)

abbrev Fits : ℕ → Option (ℕ × Bytes) → Type 0
Fits w none = Unit
Fits w (some (v, r)) = v < 2 ^ w

stored-Fits : (w : ℕ) (n : Bool) (o : Option (ℕ × Bytes)) → Fits w (stored w n o)
unfolding stored
stored-Fits w n none = tt
stored-Fits w n (some (m, r)) = store-lt w n m

signed_number-Fits : (base w : ℕ) (s : Bytes) → Fits w (signed_number base w s)
unfolding signed_number
signed_number-Fits base w [] = tt
signed_number-Fits base w (c ∷ s) = ground (
  arith,
  stored-Fits w true (magnitude base s),
  stored-Fits w false (magnitude base s),
  stored-Fits w false (magnitude base (c ∷ s)),
)

-- The values that a format assigns, as far as it gets.
abbrev pub Assigned : List Directive → List ℕ → Type 0
Assigned [] [] = Unit
Assigned [] (v ∷ vs) = ⊥
Assigned (hex w ∷ ds) [] = Unit
Assigned (hex w ∷ ds) (v ∷ vs) = (v < 2 ^ w) × Assigned ds vs
Assigned (dec w ∷ ds) [] = Unit
Assigned (dec w ∷ ds) (v ∷ vs) = (v < 2 ^ w) × Assigned ds vs
Assigned (literal c ∷ ds) vs = Assigned ds vs
Assigned (char ∷ ds) [] = Unit
Assigned (char ∷ ds) (v ∷ vs) = Assigned ds vs

Assigned-nil : (ds : List Directive) → Assigned ds []
Assigned-nil [] = tt
Assigned-nil (hex w ∷ ds) = tt
Assigned-nil (dec w ∷ ds) = tt
Assigned-nil (literal c ∷ ds) = Assigned-nil ds
Assigned-nil (char ∷ ds) = tt

pub sscanf-Assigned : (s : Bytes) (ds : List Directive) → Assigned ds (sscanf s ds)
unfolding sscanf
sscanf-Assigned s [] = tt
sscanf-Assigned s (hex w ∷ ds) =
    go (λ r. sscanf-Assigned r ds) (scan_number 16 w s)
      (unfold scan_number in signed_number-Fits 16 w (skip_space s))
  where
    go :
        ((r : Bytes) → Assigned ds (sscanf r ds))
        → (o : Option (ℕ × Bytes)) → Fits w o
        → Assigned (hex w ∷ ds) (elim o [ none ↦ [] | some (v, r) ↦ v ∷ sscanf r ds ])
    go ih none f = tt
    go ih (some (v, r)) f = (f, ih r)
sscanf-Assigned s (dec w ∷ ds) =
    go (λ r. sscanf-Assigned r ds) (scan_number 10 w s)
      (unfold scan_number in signed_number-Fits 10 w (skip_space s))
  where
    go :
        ((r : Bytes) → Assigned ds (sscanf r ds))
        → (o : Option (ℕ × Bytes)) → Fits w o
        → Assigned (dec w ∷ ds) (elim o [ none ↦ [] | some (v, r) ↦ v ∷ sscanf r ds ])
    go ih none f = tt
    go ih (some (v, r)) f = (f, ih r)
sscanf-Assigned s (literal c ∷ ds) = go (λ r. sscanf-Assigned r ds) (scan_literal c s)
  where
    go :
        ((r : Bytes) → Assigned ds (sscanf r ds))
        → (o : Option Bytes) → Assigned ds (elim o [ none ↦ [] | some r ↦ sscanf r ds ])
    go ih none = Assigned-nil ds
    go ih (some r) = ih r
sscanf-Assigned [] (char ∷ ds) = tt
sscanf-Assigned (c ∷ s) (char ∷ ds) = sscanf-Assigned s ds
