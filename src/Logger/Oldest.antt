-- ===== src/Logger/Oldest.antt =====
-- src/util/logger.c: which old log is deleted first.
use static_fire.Base.Int.{ℤ, pos, negsuc, is_negative}
use static_fire.Base.{
  Bytes, ◌≤◌, ◌<◌, Bool, true, false, not, ◌||◌, Option, none, some, List, [], ◌∷◌, ◌≡◌, refl, ◌∙◌,
  arith, ltb, leb, ◌⊎◌, inl, inr, if◌then◌else◌, length, All, Bool-cases,
}
use static_fire.Text.{lit, equal, starts_with}
use static_fire.Logger.{Stat, Dirent, Logger, Outside, called, join, path_max}

-- `strncmp (name, "simple_ws_", 10) == 0`
unfoldable pub is_logger_file_name : Bytes → Bool
is_logger_file_name name = starts_with (lit "simple_ws_") name

unfoldable pub timespec_cmp : Stat → Stat → ℤ
timespec_cmp a b =
    if ltb a.sec b.sec
    then negsuc 0
    else if ltb b.sec a.sec
    then pos 1
    else if ltb a.nsec b.nsec
    then negsuc 0
    else if ltb b.nsec a.nsec
    then pos 1
    else pos 0

-- What an entry counts for: its path and its times, unless the loop goes on without it.
unfoldable pub regular_file : Bytes → Option Stat → Option (Bytes × Stat)
regular_file path none = none
regular_file path (some st) = if st.regular then some (path, st) else none

unfoldable pub candidate : Logger → Dirent → Option (Bytes × Stat)
unfolding regular_file is_logger_file_name
candidate l e =
    let path = join l.log_dir e.name in
    if not (is_logger_file_name e.name) || leb path_max (length path) || equal path l.current_path
    then none
    else regular_file path e.stat

unfoldable pub better : Option (Bytes × Stat) → Option (Bytes × Stat) → Option (Bytes × Stat)
unfolding timespec_cmp
better best none = best
better none (some c) = some c
better (some b) (some c) = if is_negative (timespec_cmp c.1 b.1) then some c else some b

-- The loop over the entries.
unfoldable pub scan_oldest : Logger → List Dirent → Option (Bytes × Stat) → Option (Bytes × Stat)
unfolding better
scan_oldest l [] best = best
scan_oldest l (e ∷ es) best = scan_oldest l es (better best (candidate l e))

unfoldable pub path_of : Option (Bytes × Stat) → Option Bytes
path_of none = none
path_of (some (path, st)) = some path

-- `none` is the result -1, and `some none` stands for `*found == false`.
unfoldable pub find_oldest_deletable_log : Outside → Logger → Logger × Option (Option Bytes)
unfolding scan_oldest path_of
find_oldest_deletable_log out l =
    (called l, if out.scan_ok l.calls then some (path_of (scan_oldest l l.entries none)) else none)

-- No file is older.
abbrev pub NotOlder : Stat → Stat → Type 0
NotOlder a b = (a.sec < b.sec) ⊎ ((a.sec ≡ b.sec) × (a.nsec ≤ b.nsec))

-- The candidate is none, or one that is changed no earlier.
abbrev pub Later : Stat → Option (Bytes × Stat) → Type 0
Later st none = Unit
Later st (some (path, t)) = NotOlder st t

-- The path and the times are those of an entry.
abbrev pub Among : Logger → List Dirent → Bytes × Stat → Type 0
Among l [] c = ⊥
Among l (e ∷ es) c = (candidate l e ≡ some c) ⊎ Among l es c

-- What the scan finds: nothing if no entry counts, else an entry that counts, and none is older.
abbrev pub IsOldest : Logger → List Dirent → Option (Bytes × Stat) → Type 0
IsOldest l es none = All (λ e. candidate l e ≡ none) es
IsOldest l es (some c) = Among l es c × All (λ e. Later c.1 (candidate l e)) es

NotOlder-trans : (a b c : Stat) → NotOlder a b → NotOlder b c → NotOlder a c
NotOlder-trans a b c h k = ground (arith, h, k)

cmp-NotOlder :
    (a b : Stat)
    → (is_negative (timespec_cmp a b) ≡ true → NotOlder a b)
      × (is_negative (timespec_cmp a b) ≡ false → NotOlder b a)
unfolding timespec_cmp
cmp-NotOlder a b = ground arith

Later-trans : (a b : Stat) (o : Option (Bytes × Stat)) → NotOlder a b → Later b o → Later a o
Later-trans a b none h k = tt
Later-trans a b (some (path, c)) h k = NotOlder-trans a b c h k

module _ (l : Logger) where
  -- Where there is a best one already.
  record Best (es : List Dirent) (b : Bytes × Stat) : Type 0 where
    found : Bytes × Stat
    result : scan_oldest l es (some b) ≡ some found
    origin : (found ≡ b) ⊎ Among l es found
    not_older : NotOlder found.1 b.1
    later : All (λ e. Later found.1 (candidate l e)) es

  Best-Later :
      (e : Dirent) (es : List Dirent) (b : Bytes × Stat) (r : Best es b)
      → Later b.1 (candidate l e)
      → scan_oldest l (e ∷ es) (some b) ≡ scan_oldest l es (some b)
      → Best (e ∷ es) b
  Best-Later e es b r h same = record {
    found = r.found;
    result = same ∙ r.result;
    origin = elim r.origin [ inl x ↦ inl x | inr x ↦ inr (inr x) ];
    not_older = r.not_older;
    later = (Later-trans r.found.1 b.1 (candidate l e) r.not_older h, r.later);
  }

  Best-newer :
      (e : Dirent) (es : List Dirent) (b d : Bytes × Stat) (r : Best es d)
      → candidate l e ≡ some d
      → NotOlder d.1 b.1
      → scan_oldest l (e ∷ es) (some b) ≡ scan_oldest l es (some d)
      → Best (e ∷ es) b
  Best-newer e es b d r is h same = record {
    found = r.found;
    result = same ∙ r.result;
    origin = elim r.origin [ inl x ↦ inr (inl (rw x is)) | inr x ↦ inr (inr x) ];
    not_older = NotOlder-trans r.found.1 d.1 b.1 r.not_older h;
    later = (rw is r.not_older, r.later);
  }

  scan-Best : (es : List Dirent) (b : Bytes × Stat) → Best es b
  scan-Best [] b = record {
    found = b;
    result = unfold scan_oldest in refl;
    origin = inl refl;
    not_older = inr (refl, omega arith);
    later = tt;
  }
  scan-Best (e ∷ es) b = step (candidate l e) refl (scan-Best es)
    where
      step :
          (o : Option (Bytes × Stat))
          → candidate l e ≡ o
          → ((x : Bytes × Stat) → Best es x)
          → Best (e ∷ es) b
      step none h ih = Best-Later e es b (ih b) (rw h tt) (unfold scan_oldest better in rw h refl)
      step (some d) h ih = elim (Bool-cases (is_negative (timespec_cmp d.1 b.1))) [
        | inl k ↦
            Best-newer e es b d (ih d) h ((cmp-NotOlder d.1 b.1).0 k)
              (unfold scan_oldest better in rw (h, k) refl)
        | inr k ↦
            Best-Later e es b (ih b) (rw h ((cmp-NotOlder d.1 b.1).1 k))
              (unfold scan_oldest better in rw (h, k) refl)
      ]

  Best-IsOldest :
      (e : Dirent) (es : List Dirent) (d : Bytes × Stat)
      → candidate l e ≡ some d
      → Best es d
      → IsOldest l (e ∷ es) (scan_oldest l es (some d))
  Best-IsOldest e es d h r =
      rw r.result
        (elim r.origin [ inl x ↦ inl (rw x h) | inr x ↦ inr x ], (rw h r.not_older, r.later))

  IsOldest-skip :
      (e : Dirent) (es : List Dirent) (o : Option (Bytes × Stat))
      → candidate l e ≡ none
      → IsOldest l es o
      → IsOldest l (e ∷ es) o
  IsOldest-skip e es none h x = (h, x)
  IsOldest-skip e es (some c) h x = (inr x.0, (rw h tt, x.1))

  -- The scan finds an entry that counts (a regular file of the logger, with a path that fits and is
  -- not that of the open file) than which none is older, and nothing only if no entry counts.
  pub scan_oldest-IsOldest : (es : List Dirent) → IsOldest l es (scan_oldest l es none)
  scan_oldest-IsOldest [] = unfold scan_oldest in tt
  scan_oldest-IsOldest (e ∷ es) = step (candidate l e) refl (scan_oldest-IsOldest es)
    where
      step :
          (o : Option (Bytes × Stat))
          → candidate l e ≡ o
          → IsOldest l es (scan_oldest l es none)
          → IsOldest l (e ∷ es) (scan_oldest l (e ∷ es) none)
      step none h x = unfold scan_oldest better in rw h (IsOldest-skip e es _ h x)
      step (some d) h x =
          unfold scan_oldest better in rw h (Best-IsOldest e es d h (scan-Best es d))
