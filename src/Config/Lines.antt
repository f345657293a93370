-- ===== src/Config/Lines.antt =====
-- src/app/config.c: the lines of a configuration file: blanks, comments, keys and values.
use static_fire.Base.{
  Bytes, ℕ, Bool, true, false, ◌&&◌, [], ◌∷◌, ◌++◌, ◌≡◌, refl, ◌∙◌, ap, if◌then◌else◌, Bool-cases,
  inl, inr, All, subst,
}
use static_fire.Text.Scan.{is_space, skip_space}
use static_fire.Text.{is_empty}
use static_fire.Config.Values.{strip_end, trim_whitespace}

abbrev pub IsBlank : Bytes → Type 0
IsBlank = All (λ c. is_space c ≡ true)

-- Neither the first byte nor the last is a space.
abbrev pub Starts : Bytes → Type 0
Starts [] = Unit
Starts (c ∷ s) = is_space c ≡ false

abbrev pub Ends : Bytes → Type 0
Ends [] = Unit
Ends (c ∷ []) = is_space c ≡ false
Ends (c ∷ d ∷ s) = Ends (d ∷ s)

skip_space-Starts : (s : Bytes) → Starts (skip_space s)
unfolding skip_space
skip_space-Starts [] = tt
skip_space-Starts (c ∷ s) = elim (Bool-cases (is_space c)) [
  | inl h ↦ rw (h, skip_space) (skip_space-Starts s)
  | inr h ↦ rw (h, skip_space) h
]

-- What is skipped is blank.
skip_space-IsBlank : (s : Bytes) → (pre : Bytes) × IsBlank pre × (pre ++ skip_space s ≡ s)
unfolding skip_space
skip_space-IsBlank [] = ([], tt, refl)
skip_space-IsBlank (c ∷ s) = elim (Bool-cases (is_space c)) [
  | inl h ↦
      let (pre, b, e) = skip_space-IsBlank s in
      (c ∷ pre, (h, b), rw (h, skip_space) (ap (λ t. c ∷ t) e))
  | inr h ↦ ([], tt, rw (h, skip_space) refl)
]

both : (b : Bool) (t : Bytes) → (b && is_empty t) ≡ true → (b ≡ true) × (t ≡ [])
both true [] h = (refl, refl)
both true (c ∷ t) h = absurd (cc h)
both false t h = absurd (cc h)

strip_end-IsBlank : (s : Bytes) → (post : Bytes) × IsBlank post × (strip_end s ++ post ≡ s)
unfolding strip_end
strip_end-IsBlank [] = ([], tt, refl)
strip_end-IsBlank (c ∷ s) =
    let (post, b, e) = strip_end-IsBlank s in
    elim (Bool-cases (is_space c && is_empty (strip_end s))) [
      | inl h ↦
          let (space, none_left) = both (is_space c) (strip_end s) h in
          (c ∷ s, (space, subst IsBlank (rw none_left at e) b), rw (h, strip_end) refl)
      | inr h ↦ (post, b, rw (h, strip_end) (ap (λ t. c ∷ t) e))
    ]

strip_end-Ends : (s : Bytes) → Ends (strip_end s)
unfolding strip_end
strip_end-Ends [] = tt
strip_end-Ends (c ∷ s) = go (is_space c) (strip_end s) refl (strip_end-Ends s)
  where
    go :
        (b : Bool) (t : Bytes)
        → is_space c ≡ b
        → Ends t
        → Ends (if b && is_empty t then [] else c ∷ t)
    go true [] e h = tt
    go false [] e h = e
    go true (d ∷ t) e h = h
    go false (d ∷ t) e h = h

pub skip_space-append : (pre s : Bytes) → IsBlank pre → skip_space (pre ++ s) ≡ skip_space s
unfolding skip_space
skip_space-append [] s b = refl
skip_space-append (c ∷ pre) s b = rw (b.0, skip_space) (skip_space-append pre s b.1)

strip_end-post : (post : Bytes) → IsBlank post → strip_end post ≡ []
unfolding strip_end
strip_end-post [] b = refl
strip_end-post (c ∷ post) b = rw (b.0, strip_end-post post b.1, strip_end) refl

strip_end-append : (core post : Bytes) → Ends core → IsBlank post → strip_end (core ++ post) ≡ core
unfolding strip_end
strip_end-append [] post e b = strip_end-post post b
strip_end-append (c ∷ []) post e b = rw (e, strip_end-post post b, strip_end) refl
strip_end-append (c ∷ d ∷ s) post e b =
    rw (strip_end-append (d ∷ s) post e b, strip_end) (same (is_space c))
  where
    same : (b : Bool) → (if b && false then [] else c ∷ d ∷ s) ≡ c ∷ d ∷ s
    same true = refl
    same false = refl

strip-core :
    (core post : Bytes)
    → Starts core
    → Ends core
    → IsBlank post
    → strip_end (skip_space (core ++ post)) ≡ core
unfolding skip_space
strip-core [] post s e b = rw (skip_space-post post b) (unfold strip_end in refl)
  where
    skip_space-post : (post : Bytes) → IsBlank post → skip_space post ≡ []
    skip_space-post [] b = refl
    skip_space-post (c ∷ post) b = rw (b.0, skip_space) (skip_space-post post b.1)
strip-core (c ∷ core) post s e b = rw (s, skip_space) (strip_end-append (c ∷ core) post e b)

pub trim_whitespace-starts :
    (pre : Bytes) (c : ℕ) (s : Bytes)
    → IsBlank pre
    → is_space c ≡ false
    → trim_whitespace (pre ++ (c ∷ s)) ≡ c ∷ strip_end s
unfolding trim_whitespace skip_space strip_end
trim_whitespace-starts pre c s a h =
    ap strip_end (skip_space-append pre (c ∷ s) a) ∙ rw (h, skip_space) (rw (h, strip_end) refl)

-- Trimming takes off what is blank around a text.
pub trim_whitespace-framed :
    (pre core post : Bytes)
    → IsBlank pre
    → Starts core
    → Ends core
    → IsBlank post
    → trim_whitespace (pre ++ (core ++ post)) ≡ core
unfolding trim_whitespace
trim_whitespace-framed pre core post a s e b =
    ap strip_end (skip_space-append pre (core ++ post) a) ∙ strip-core core post s e b

-- A text is its trimmed form with blanks around, and the trimmed form has no blank at its ends.
pub record IsTrimmed (s t : Bytes) : Type 0 where
  pub before : Bytes
  pub behind : Bytes
  pub before_blank : IsBlank before
  pub behind_blank : IsBlank behind
  pub whole : before ++ (t ++ behind) ≡ s
  pub starts : Starts t
  pub ends : Ends t

Starts-strip_end : (s : Bytes) → Starts s → Starts (strip_end s)
unfolding strip_end
Starts-strip_end [] h = tt
Starts-strip_end (c ∷ s) h = rw (h, strip_end) h

-- `trim_whitespace` takes off blanks at both ends, nothing else, and all of them; so what it gives
-- does not depend on the blanks that stand around a text.
pub trim_whitespace-IsTrimmed :
    (pre s post : Bytes)
    → IsBlank pre
    → IsBlank post
    → IsTrimmed s (trim_whitespace s)
      × (trim_whitespace (pre ++ (trim_whitespace s ++ post)) ≡ trim_whitespace s)
unfolding trim_whitespace
trim_whitespace-IsTrimmed x s y h k =
    let (pre, a, e) = skip_space-IsBlank s in
    let (post, b, f) = strip_end-IsBlank (skip_space s) in
    let starts = Starts-strip_end (skip_space s) (skip_space-Starts s) in
    let ends = strip_end-Ends (skip_space s) in
    (
      record {
        before = pre;
        behind = post;
        before_blank = a;
        behind_blank = b;
        whole = rw f e;
        starts = starts;
        ends = ends;
      },
      trim_whitespace-framed x (trim_whitespace s) y h starts ends k,
    )
