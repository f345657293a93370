-- ===== src/Logger/Maintenance/Safety.antt =====
-- src/util/logger.c: which files are deleted, and that the log stays well formed.
use static_fire.Base.{
  Bytes, ◌≤◌, ◌<◌, true, false, not, ◌||◌, Option, none, some, List, [], ◌∷◌, ◌≡◌, refl, arith, leb,
  inl, inr, length, All, Bool-cases,
}
use static_fire.Text.{equal}
use static_fire.Logger.{Stat, Dirent, Logger, Outside, called, join, path_max}
use static_fire.Logger.Cyclic.Ring.{IsRing}
use static_fire.Logger.Oldest.{
  find_oldest_deletable_log, scan_oldest, candidate, regular_file, path_of, is_logger_file_name,
  IsOldest, Among, scan_oldest-IsOldest,
}
use static_fire.Logger.Maintenance.{without}

-- A path that may be deleted: a file of the logger in its directory, but not the open one.
pub record IsDeletable (dir current path : Bytes) : Type 0 where
  pub not_current : equal path current ≡ false
  pub name : Bytes
  pub in_dir : path ≡ join dir name
  pub of_logger : is_logger_file_name name ≡ true

regular_file-path :
    (p : Bytes) (o : Option Stat) (c : Bytes × Stat) → regular_file p o ≡ some c → c.0 ≡ p
unfolding regular_file
regular_file-path p none c e = cc
regular_file-path p (some st) c e = ground arith

guard-IsDeletable :
    (l : Logger) (e : Dirent)
    → (not (is_logger_file_name e.name)
        || leb path_max (length (join l.log_dir e.name))
        || equal (join l.log_dir e.name) l.current_path)
      ≡ false
    → IsDeletable l.log_dir l.current_path (join l.log_dir e.name)
guard-IsDeletable l e h = record {
  not_current = ground arith;
  name = e.name;
  in_dir = refl;
  of_logger = ground arith;
}

candidate-IsDeletable :
    (l : Logger) (e : Dirent) (c : Bytes × Stat)
    → candidate l e ≡ some c
    → IsDeletable l.log_dir l.current_path c.0 × (c.0 ≡ join l.log_dir e.name)
unfolding candidate
candidate-IsDeletable l e c h =
    elim (Bool-cases (
      not (is_logger_file_name e.name)
      || leb path_max (length (join l.log_dir e.name))
      || equal (join l.log_dir e.name) l.current_path)) [
        | inl k ↦ absurd (cc (rw k at h))
        | inr k ↦
            let p = regular_file-path (join l.log_dir e.name) e.stat c (rw k at h) in
            rw p (guard-IsDeletable l e k, refl)
      ]

equal_refl : (s : Bytes) → equal s s ≡ true
unfolding equal
equal_refl [] = refl
equal_refl (c ∷ s) = ground (arith, equal_refl s)

without-le : (dir path : Bytes) (es : List Dirent) → length (without dir path es) ≤ length es
unfolding without
without-le dir path [] = omega arith
without-le dir path (e ∷ es) = ground (arith, without-le dir path es)

-- An entry that counts is gone when its path is unlinked.
without-lt :
    (l : Logger) (es : List Dirent) (c : Bytes × Stat)
    → Among l es c
    → length (without l.log_dir c.0 es) < length es
unfolding without
without-lt l [] c a = absurd a
without-lt l (e ∷ es) c (inl h) =
    let (_, p) = candidate-IsDeletable l e c h in
    let gone : equal (join l.log_dir e.name) c.0 ≡ true =
      rw p (equal_refl (join l.log_dir e.name)) in
    rw gone (omega (arith, without-le l.log_dir c.0 es))
without-lt l (e ∷ es) c (inr a) = ground (arith, without-lt l es c a)

Among-IsDeletable :
    (l : Logger) (es : List Dirent) (c : Bytes × Stat)
    → Among l es c
    → IsDeletable l.log_dir l.current_path c.0
Among-IsDeletable l [] c a = absurd a
Among-IsDeletable l (e ∷ es) c (inl h) = (candidate-IsDeletable l e c h).0
Among-IsDeletable l (e ∷ es) c (inr a) = Among-IsDeletable l es c a

-- What a scan may give.
unfoldable pub Found : Logger → Option (Option Bytes) → Type 0
Found l none = Unit
Found l (some none) = Unit
Found l (some (some path)) =
    IsDeletable l.log_dir l.current_path path
    × (length (without l.log_dir path l.entries) < length l.entries)

module _ (out : Outside) where
  scan-Found :
      (l : Logger) (o : Option (Bytes × Stat)) → IsOldest l l.entries o → Found l (some (path_of o))
  unfolding Found path_of
  scan-Found l none x = tt
  scan-Found l (some c) x = (Among-IsDeletable l l.entries c x.0, without-lt l l.entries c x.0)

  pub find_oldest-Found : (l : Logger) → Found (called l) (find_oldest_deletable_log out l).1
  unfolding find_oldest_deletable_log Found
  find_oldest-Found l = elim (Bool-cases (out.scan_ok l.calls)) [
    | inl h ↦ rw h (scan-Found l (scan_oldest l l.entries none) (scan_oldest-IsOldest l l.entries))
    | inr h ↦ rw h tt
  ]

-- The log is well formed: the offsets are, they are not set while lines go to the end, and only files
-- of the logger but the open one have been deleted.
pub record IsLog (l : Logger) : Type 0 where
  pub ring : IsRing l
  pub normal : l.cyclic_mode ≡ false → l.cyclic_capacity_bytes ≡ 0
  pub deleted : All (IsDeletable l.log_dir l.current_path) l.unlinked
