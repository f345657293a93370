-- ===== src/Logger/Maintenance/Opening.antt =====
-- src/util/logger.c: opening the log.
use static_fire.Base.{
  Bytes, ℕ, List, ap, Bool, true, false, Option, none, some, [], ◌∷◌, ◌++◌, ◌≡◌, refl, leb, ◌==◌,
  inl, inr, length, Bool-cases,
}
use static_fire.Logger.{Logger, Outside, called, join, path_max}
use static_fire.Logger.Directory.{make_directory, make_parents, ensure_directory_exists}
use static_fire.Logger.Maintenance.{open_file, open_named, open_in, logger_open}
use static_fire.Logger.Maintenance.Runs.{maybe_run_maintenance_total}
use static_fire.Logger.Maintenance.Safety.{IsLog}

-- What `memset` leaves of the log, as far as it matters; no file of the directory has been deleted.
abbrev pub Zeroed : Type 0
Zeroed = Option Bytes × Bool × ℕ × ℕ × List Bytes

abbrev pub zeroed : Logger → Zeroed
zeroed l = (l.fp, l.cyclic_mode, l.cyclic_write_offset, l.cyclic_capacity_bytes, l.unlinked)

abbrev pub IsFresh : Logger → Type 0
IsFresh l = zeroed l ≡ (none, false, 0, 0, [])

is_closed : (l : Logger) → IsFresh l → l.fp ≡ none
is_closed l x = ap (λ (z : Zeroed). z.0) x

none_deleted : (l : Logger) → IsFresh l → l.unlinked ≡ []
none_deleted l x = ap (λ (z : Zeroed). z.4) x

IsFresh-IsLog : (l : Logger) → IsFresh l → IsLog l
IsFresh-IsLog l x =
    let no_capacity = ap (λ (z : Zeroed). z.3) x in
    record {
      ring = record {
        bounds = inl (no_capacity, ap (λ (z : Zeroed). z.2) x);
        inside = rw (is_closed l x) tt;
      };
      normal = λ _. no_capacity;
      deleted = rw (none_deleted l x) tt;
    }

-- Opening has ended: the log is well formed, and no file is open after a failure.
pub record Opened (o : Option (Logger × Bool)) : Type 0 where
  pub log : Logger
  pub success : Bool
  pub ends : o ≡ some (log, success)
  pub well_formed : IsLog log
  pub closed : success ≡ false → log.fp ≡ none

failed-Opened : (l : Logger) → IsFresh l → Opened (some (l, false))
failed-Opened l x = record {
  log = l;
  success = false;
  ends = refl;
  well_formed = IsFresh-IsLog l x;
  closed = λ _. is_closed l x;
}

module _ (out : Outside) where
  make_parents-IsFresh :
      (done rest : Bytes) (l : Logger) → IsFresh l → IsFresh (make_parents out done rest l).0
  unfolding make_parents make_directory
  make_parents-IsFresh done [] l x = x
  make_parents-IsFresh done (c ∷ rest) l x = elim (Bool-cases (c == b'/')) [
    | inr h ↦ rw h (make_parents-IsFresh (done ++ (c ∷ [])) rest l x)
    | inl h ↦ elim (Bool-cases (out.mkdir_ok l.calls)) [
      | inr k ↦ rw (h, k) x
      | inl k ↦
          rw (h, k) (make_parents-IsFresh (done ++ (c ∷ [])) rest (make_directory out done l).0 x)
    ]
  ]

  ensure_directory_exists-IsFresh :
      (path : Bytes) (l : Logger) → IsFresh l → IsFresh (ensure_directory_exists out path l).0
  unfolding ensure_directory_exists
  ensure_directory_exists-IsFresh [] l x = x
  ensure_directory_exists-IsFresh (c ∷ path) l x =
      elim (Bool-cases (leb path_max (length (c ∷ path)))) [
        | inl h ↦ rw h x
        | inr h ↦ rw h (make_parents-IsFresh (c ∷ []) path l x)
      ]

  open_file-Opened : (dir path : Bytes) (l : Logger) → IsFresh l → Opened (open_file out dir path l)
  unfolding open_file
  open_file-Opened dir path l x =
      let opened = record (called l) {
        fp = some [];
        log_dir = dir;
        current_path = path;
        next_maintenance_ms = 0;
        cyclic_mode = false;
        cyclic_capacity_bytes = 0;
        cyclic_write_offset = 0;
      } in
      let (t, e, y) = maybe_run_maintenance_total out opened (record {
        ring = record { bounds = inl (refl, refl); inside = inl refl };
        normal = λ _. refl;
        deleted = rw (none_deleted l x) tt;
      }) in
      elim (Bool-cases (out.fopen_ok l.calls)) [
        | inr h ↦ rw h (failed-Opened (called l) x)
        | inl h ↦
            rw (h, e)
              (record {
                log = t;
                success = true;
                ends = refl;
                well_formed = y;
                closed = λ k. absurd (cc k);
              })
      ]

  open_named-Opened :
      (dir : Bytes) (name : Option Bytes) (l : Logger)
      → IsFresh l
      → Opened (open_named out dir name l)
  unfolding open_named
  open_named-Opened dir none l x = failed-Opened l x
  open_named-Opened dir (some name) l x =
      elim (Bool-cases (leb path_max (length (join dir name)))) [
        | inl h ↦ rw h (failed-Opened l x)
        | inr h ↦ rw h (open_file-Opened dir (join dir name) l x)
      ]

  open_in-Opened : (dir : Bytes) (r : Logger × Bool) → IsFresh r.0 → Opened (open_in out dir r)
  unfolding open_in
  open_in-Opened dir (l, false) x = failed-Opened l x
  open_in-Opened dir (l, true) x = open_named-Opened dir (out.file_name l.calls) (called l) x

  -- Opening a zeroed log ends on every path, whatever the disk does: the log is well formed, and when
  -- the call fails no file is open.
  pub logger_open-Opened :
      (on : Bool) (dir : Bytes) (l : Logger) → IsFresh l → Opened (logger_open out on dir l)
  unfolding logger_open
  logger_open-Opened false dir l x = record {
    log = record l { enabled = false };
    success = true;
    ends = refl;
    well_formed = IsFresh-IsLog (record l { enabled = false }) x;
    closed = λ k. absurd (cc k);
  }
  logger_open-Opened true dir l x =
      open_in-Opened dir (ensure_directory_exists out dir (record l { enabled = true }))
        (ensure_directory_exists-IsFresh dir (record l { enabled = true }) x)
