-- ===== src/Logger/Maintenance/Lines.antt =====
-- src/util/logger.c: writing lines.
use static_fire.Logger.Maintenance.Runs.{Ends, maybe_run_maintenance_total}
use static_fire.Base.{
  Bytes, suc, Bool, true, false, not, ◌||◌, Option, none, some, [], ◌∷◌, ◌≡◌, refl, inl, inr,
  if◌then◌else◌, Bool-cases,
}
use static_fire.Text.{is_empty}
use static_fire.Logger.{Logger, Outside, called, line_header}
use static_fire.Logger.Cyclic.{write_cyclic_bytes}
use static_fire.Logger.Cyclic.Ring.{IsRing, write_cyclic_bytes-IsRing}
use static_fire.Logger.Maintenance.{
  append_to, append, write_normal_line, write_cyclic_line, write_line, logger_write, is_open,
  print_text, print_line, logger_printf,
}
use static_fire.Logger.Maintenance.Safety.{IsLog}
use static_fire.Logger.Maintenance.Total.{
  keep-write, IsKept, IsKept-keep, IsKept-IsLog, IsLog-called,
}

module _ (out : Outside) where
  -- At the end of the file, where no capacity is set.
  append_to-IsLog :
      (o : Option Bytes) (text : Bytes) (l : Logger)
      → l.cyclic_mode ≡ false
      → IsLog l
      → IsLog (append_to out o text l) × ((append_to out o text l).cyclic_mode ≡ false)
  unfolding append_to
  append_to-IsLog none text l m x = (x, m)
  append_to-IsLog (some file) text l m x = (
    record {
      ring = record { bounds = x.ring.bounds; inside = inl (x.normal m) };
      normal = x.normal;
      deleted = x.deleted;
    },
    m,
  )

  append-IsLog :
      (text : Bytes) (l : Logger)
      → l.cyclic_mode ≡ false
      → IsLog l
      → IsLog (append out text l) × ((append out text l).cyclic_mode ≡ false)
  unfolding append
  append-IsLog text l m x = append_to-IsLog l.fp text l m x

  IsLog-called2 : (l : Logger) → IsLog l → IsLog (called (called l))
  IsLog-called2 l x = IsLog-called (called l) (IsLog-called l x)

  write_normal_line-IsLog :
      (kind text : Bytes) (l : Logger)
      → l.cyclic_mode ≡ false
      → IsLog l
      → IsLog (write_normal_line out kind text l)
  unfolding write_normal_line
  write_normal_line-IsLog kind text l m x =
      let header = line_header (out.realtime_ns (suc l.calls)) kind in
      let (h, n) = append-IsLog header (called (called l)) m (IsLog-called2 l x) in
      let headed = append out header (called (called l)) in
      let (f, k) = append-IsLog text headed n h in
      elim (Bool-cases (out.seek_ok l.calls)) [
        | inr s ↦ rw s (IsLog-called l x)
        | inl s ↦ elim (Bool-cases (is_empty text)) [
          | inl e ↦ rw (s, e) (append-IsLog (b'\n' ∷ []) headed n h).0
          | inr e ↦ rw (s, e) (append-IsLog (b'\n' ∷ []) (append out text headed) k f).0
        ]
      ]

  -- A log in which lines are written in place stays one.
  record IsCyclic (l : Logger) : Type 0 where
    ring : IsRing l
    kept : IsKept l

  write-IsCyclic :
      (text : Bytes) (l : Logger) → IsCyclic l → IsCyclic (write_cyclic_bytes out text l).0
  write-IsCyclic text l x = record {
    ring = write_cyclic_bytes-IsRing out text l x.ring;
    kept = IsKept-keep l _ (keep-write out text l) x.kept;
  }

  called-IsCyclic : (l : Logger) → IsCyclic l → IsCyclic (called l)
  called-IsCyclic l x = record {
    ring = record { bounds = x.ring.bounds; inside = x.ring.inside };
    kept = record { cyclic = x.kept.cyclic; deleted = x.kept.deleted };
  }

  IsLog-IsCyclic : (l : Logger) → l.cyclic_mode ≡ true → IsLog l → IsCyclic l
  IsLog-IsCyclic l m x = record { ring = x.ring; kept = record { cyclic = m; deleted = x.deleted } }

  pick-IsLog :
      (b : Bool) (s t : Logger)
      → (b ≡ true → IsLog s)
      → (b ≡ false → IsLog t)
      → IsLog (if b then s else t)
  pick-IsLog true s t f g = f refl
  pick-IsLog false s t f g = g refl

  ended-IsLog : (l : Logger) → IsCyclic l → IsLog (write_cyclic_bytes out (b'\n' ∷ []) l).0
  ended-IsLog l x = let e = write-IsCyclic (b'\n' ∷ []) l x in IsKept-IsLog _ e.ring e.kept

  headed-IsCyclic :
      (header : Bytes) (l : Logger)
      → l.cyclic_mode ≡ true
      → IsLog l
      → IsCyclic (write_cyclic_bytes out header (called l)).0
  headed-IsCyclic header l m x =
      write-IsCyclic header (called l) (called-IsCyclic l (IsLog-IsCyclic l m x))

  write_cyclic_line-IsLog :
      (kind text : Bytes) (l : Logger)
      → l.cyclic_mode ≡ true
      → IsLog l
      → IsLog (write_cyclic_line out kind text l)
  unfolding write_cyclic_line
  write_cyclic_line-IsLog kind text l m x =
      ended-IsLog _
        (write-IsCyclic text _ (headed-IsCyclic (line_header (out.realtime_ns l.calls) kind) l m x))

  write_line-IsLog : (kind text : Bytes) (l : Logger) → IsLog l → IsLog (write_line out kind text l)
  unfolding write_line
  write_line-IsLog kind text l x =
      pick-IsLog l.cyclic_mode _ _ (λ h. write_cyclic_line-IsLog kind text l h x)
        (λ h. write_normal_line-IsLog kind text l h x)

  print_text-IsCyclic : (text : Bytes) (l : Logger) → IsCyclic l → IsCyclic (print_text out text l)
  unfolding print_text
  print_text-IsCyclic [] l x = x
  print_text-IsCyclic (c ∷ text) l x = elim (Bool-cases (out.malloc_ok l.calls)) [
    | inl h ↦ rw h (write-IsCyclic (c ∷ text) (called l) (called-IsCyclic l x))
    | inr h ↦ rw h (called-IsCyclic l x)
  ]

  -- The line that is printed at the end of the file.
  printed-IsLog :
      (header text : Bytes) (l : Logger)
      → l.cyclic_mode ≡ false
      → IsLog l
      → IsLog (append out (b'\n' ∷ []) (append out text (append out header (called (called l)))))
  printed-IsLog header text l m x =
      let (h, n) = append-IsLog header (called (called l)) m (IsLog-called2 l x) in
      let (f, k) = append-IsLog text (append out header (called (called l))) n h in
      (append-IsLog (b'\n' ∷ []) (append out text (append out header (called (called l)))) k f).0

  print_line-IsLog : (kind text : Bytes) (l : Logger) → IsLog l → IsLog (print_line out kind text l)
  unfolding print_line
  print_line-IsLog kind text l x =
      pick-IsLog l.cyclic_mode _ _
        (λ h. ended-IsLog _ (
          print_text-IsCyclic text _
            (headed-IsCyclic (line_header (out.realtime_ns l.calls) kind) l h x)))
        (λ h.
          pick-IsLog (not (out.seek_ok l.calls)) _ _ (λ _. IsLog-called l x)
            (λ _. printed-IsLog (line_header (out.realtime_ns (suc l.calls)) kind) text l h x))

  -- Writing a line ends, on a well-formed log and whatever the disk does: the loop that deletes old
  -- logs has enough fuel, and the log is well formed again.
  pub logger_write_total :
      (kind text : Bytes) (l : Logger) → IsLog l → Ends (logger_write out kind text l)
  unfolding logger_write
  logger_write_total kind text l x =
      let (t, e, y) = maybe_run_maintenance_total out l x in
      elim (Bool-cases (not l.enabled || not (is_open l.fp))) [
        | inl h ↦ (l, rw (e, logger_write) (rw h refl), x)
        | inr h ↦ (
          write_line out kind text t,
          rw (e, logger_write) (rw h refl),
          write_line-IsLog kind text t y,
        )
      ]

  -- Printing a line ends likewise, on a well-formed log and whatever the disk does, and leaves it well
  -- formed.
  pub logger_printf_total :
      (kind text : Bytes) (l : Logger) → IsLog l → Ends (logger_printf out kind text l)
  unfolding logger_printf
  logger_printf_total kind text l x =
      let (t, e, y) = maybe_run_maintenance_total out l x in
      elim (Bool-cases (not l.enabled || not (is_open l.fp))) [
        | inl h ↦ (l, rw (e, logger_printf) (rw h refl), x)
        | inr h ↦ (
          print_line out kind text t,
          rw (e, logger_printf) (rw h refl),
          print_line-IsLog kind text t y,
        )
      ]
