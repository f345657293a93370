-- ===== src/Logger/Directory.antt =====
-- src/util/logger.c: making the directory of the log, with its parents.
use static_fire.Base.{
  Bytes, ℕ, suc, ◌≤◌, ◌<◌, Bool, true, false, List, [], ◌∷◌, ◌++◌, ◌≡◌, refl, ap, arith, leb, ◌==◌,
  if◌then◌else◌, length, take, Bool-cases, inl, inr,
}
use static_fire.Logger.{Logger, Outside, path_max}

module _ (out : Outside) where
  -- `mkdir` of one path; it may be there already.
  unfoldable pub make_directory : Bytes → Logger → Logger × Bool
  make_directory path l =
      (record l { made = path ∷ l.made; calls = suc l.calls }, out.mkdir_ok l.calls)

  -- The loop over the path behind its first byte, and the last call.
  unfoldable pub make_parents : Bytes → Bytes → Logger → Logger × Bool
  unfolding make_directory
  make_parents done [] l = make_directory done l
  make_parents done (c ∷ rest) l =
      let (l', ok) = make_directory done l in
      let next = make_parents (done ++ (c ∷ [])) rest in
      if c == b'/' then (if ok then next l' else (l', false)) else next l

  unfoldable pub ensure_directory_exists : Bytes → Logger → Logger × Bool
  unfolding make_parents
  ensure_directory_exists [] l = (l, false)
  ensure_directory_exists (c ∷ path) l =
      if leb path_max (length (c ∷ path)) then (l, false) else make_parents (c ∷ []) path l

-- The directories of a path: what stands before each slash behind the first byte, and the whole.
abbrev pub parents : Bytes → Bytes → List Bytes
parents done [] = done ∷ []
parents done (c ∷ rest) =
    let next = parents (done ++ (c ∷ [])) rest in if c == b'/' then done ∷ next else next

-- The paths that have been tried, newest first, behind those of a list.
abbrev pub onto : List Bytes → List Bytes → List Bytes
onto [] old = old
onto (p ∷ ps) old = onto ps (p ∷ old)

-- The first `count` directories have been tried: all of them if the call succeeded.
pub record Made (ps : List Bytes) (l : Logger) (r : Logger × Bool) : Type 0 where
  pub count : ℕ
  pub within : count ≤ length ps
  pub tried : r.0.made ≡ onto (take count ps) l.made
  pub whole : r.1 ≡ true → count ≡ length ps

module _ (out : Outside) where
  make_parents-Made :
      (done rest : Bytes) (l : Logger) → Made (parents done rest) l (make_parents out done rest l)
  unfolding make_parents make_directory
  make_parents-Made done [] l = record {
    count = 1;
    within = omega arith;
    tried = refl;
    whole = λ _. refl;
  }
  make_parents-Made done (c ∷ rest) l = elim (Bool-cases (c == b'/')) [
    | inr h ↦ rw h (make_parents-Made (done ++ (c ∷ [])) rest l)
    | inl h ↦
        let l' = (make_directory out done l).0 in
        let m = make_parents-Made (done ++ (c ∷ [])) rest l' in
        elim (Bool-cases (out.mkdir_ok l.calls)) [
          | inr k ↦
              rw (h, k)
                (record {
                  count = 1;
                  within = omega arith;
                  tried = refl;
                  whole = λ e. absurd (cc e);
                })
          | inl k ↦
              rw (h, k)
                (record {
                  count = suc m.count;
                  within = omega (arith, m.within);
                  tried = m.tried;
                  whole = λ e. ap suc (m.whole e);
                })
        ]
  ]

  -- A path that is not empty and fits its buffer is made from its first directory on: those tried are
  -- the first ones of it, in order, and all of them if the call succeeds.
  pub ensure_directory_exists-Made :
      (c : ℕ) (path : Bytes) (l : Logger)
      → length (c ∷ path) < path_max
      → Made (parents (c ∷ []) path) l (ensure_directory_exists out (c ∷ path) l)
  unfolding ensure_directory_exists
  ensure_directory_exists-Made c path l h =
      let short : leb path_max (length (c ∷ path)) ≡ false = ground arith in
      rw short (make_parents-Made (c ∷ []) path l)
