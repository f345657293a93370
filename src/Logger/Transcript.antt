-- ===== src/Logger/Transcript.antt =====
-- src/util/logger.c: what a server logs, in the file, while the disk has room.
use static_fire.Base.{
  Bytes, ℕ, zero, suc, ◌≤◌, Bool, true, false, not, ◌||◌, Option, none, some, [], ◌∷◌, ◌++◌, ◌+◌,
  ◌%◌, ◌^◌, ◌≡◌, refl, ◌∙◌, ap, arith, length, take, append_assoc, subst, le→leb, ltb, Bool-cases,
  inl, inr, if◌then◌else◌,
}
use static_fire.Logger.{
  Logger, Outside, called, leave_cyclic, line_header, min_free_percent, maintenance_interval_ms,
}
use static_fire.Logger.Maintenance.{
  append, append_to, free_percent, get_free_percent, keep_free, run_maintenance,
  maybe_run_maintenance, is_open, logger_write, logger_printf, print_line, write_line,
  write_normal_line,
}

-- An open log, written at its end.
pub record IsNormal (l : Logger) (file : Bytes) : Type 0 where
  pub enabled : l.enabled ≡ true
  pub open_file : l.fp ≡ some file
  pub at_end : l.cyclic_mode ≡ false

pub record HasRoom (out : Outside) (size : ℕ) : Type 0 where
  pub seeks : (n : ℕ) → out.seek_ok n ≡ true
  pub takes : (n : ℕ) → size ≤ out.taken n
  pub free :
      (n : ℕ) {percent : ℕ}
      → free_percent (out.statvfs n) ≡ some percent
      → min_free_percent ≤ percent

-- A line as it stands in the file.
abbrev pub line : ℕ → Bytes → Bytes → Bytes
line time kind text = line_header time kind ++ (text ++ (b'\n' ∷ []))

take-all : (n : ℕ) (s : Bytes) → length s ≤ n → take n s ≡ s
take-all zero [] h = refl
take-all zero (c ∷ s) h = absurd (omega (arith, h))
take-all (suc n) [] h = refl
take-all (suc n) (c ∷ s) h = ap (λ r. c ∷ r) (take-all n s (omega (arith, h)))

module _ (out : Outside) {size : ℕ} (room : HasRoom out size) where
  append_to-IsNormal :
      (o : Option Bytes) (text : Bytes) (l : Logger) {file : Bytes}
      → o ≡ some file
      → length text ≤ size
      → IsNormal l file
      → IsNormal (append_to out o text l) (file ++ text)
  unfolding append_to
  append_to-IsNormal none text l e h x = absurd (cc e)
  append_to-IsNormal (some f) text l {file} e h x =
      let all = take-all (out.taken l.calls) text (omega (arith, h, room.takes l.calls)) in
      let same : f ≡ file = cc e in
      record {
        enabled = x.enabled;
        open_file = ap some (ap (λ r. f ++ r) all ∙ ap (λ g. g ++ text) same);
        at_end = x.at_end;
      }

  append-IsNormal :
      (text : Bytes) (l : Logger) {file : Bytes}
      → length text ≤ size
      → IsNormal l file
      → IsNormal (append out text l) (file ++ text)
  unfolding append
  append-IsNormal text l h x = append_to-IsNormal l.fp text l x.open_file h x

  called-IsNormal : (l : Logger) {file : Bytes} → IsNormal l file → IsNormal (called l) file
  called-IsNormal l x = record { enabled = x.enabled; open_file = x.open_file; at_end = x.at_end }

  -- The operation ends, with this file.
  abbrev Gives : Bytes → Option Logger → Type 0
  Gives file o = (t : Logger) × (o ≡ some t) × IsNormal t file

  keep_free-IsNormal :
      (l : Logger) (o : Option ℕ) {file : Bytes}
      → ((percent : ℕ) → o ≡ some percent → min_free_percent ≤ percent)
      → IsNormal l file
      → Gives file (keep_free out l o)
  unfolding keep_free leave_cyclic
  keep_free-IsNormal l none h x = (l, refl, x)
  keep_free-IsNormal l (some free) h x =
      let e = le→leb min_free_percent free (h free refl) in
      (
        leave_cyclic l,
        rw e refl,
        record { enabled = x.enabled; open_file = x.open_file; at_end = refl },
      )

  run_maintenance-IsNormal :
      (l : Logger) {file : Bytes} → IsNormal l file → Gives file (run_maintenance out l)
  unfolding run_maintenance get_free_percent
  run_maintenance-IsNormal l x =
      elim (Bool-cases (ltb (out.monotonic_ms l.calls) l.next_maintenance_ms)) [
        | inl h ↦ (called l, rw h refl, called-IsNormal l x)
        | inr h ↦
            let due = record (called (called l)) {
              next_maintenance_ms = (out.monotonic_ms l.calls + maintenance_interval_ms) % 2 ^ 64;
            } in
            let (t, e, y) =
              keep_free-IsNormal due (free_percent (out.statvfs (suc l.calls)))
                (λ percent e. room.free (suc l.calls) e)
                (record { enabled = x.enabled; open_file = x.open_file; at_end = x.at_end }) in
            (t, rw h e, y)
      ]

  goes_on :
      (l : Logger) {file : Bytes} → IsNormal l file → (not l.enabled || not (is_open l.fp)) ≡ false
  unfolding is_open
  goes_on l x = rw (x.enabled, x.open_file) refl

  maintained :
      (l : Logger) {file : Bytes} → IsNormal l file → Gives file (maybe_run_maintenance out l)
  unfolding maybe_run_maintenance
  maintained l x = let (t, e, y) = run_maintenance-IsNormal l x in (t, rw (goes_on l x) e, y)

  abbrev pub Fits : Bytes → Bytes → Type 0
  Fits kind text =
      (1 ≤ size)
      × (length text ≤ size)
      × ((n : ℕ) → length (line_header (out.realtime_ns n) kind) ≤ size)

  abbrev pub Adds : Bytes → Bytes → Bytes → Logger → Type 0
  Adds file kind text t = (n : ℕ) × IsNormal t (file ++ line (out.realtime_ns n) kind text)

  regroup : (file a b c : Bytes) → ((file ++ a) ++ b) ++ c ≡ file ++ (a ++ (b ++ c))
  regroup file a b c = append_assoc (file ++ a) b c ∙ append_assoc file a (b ++ c)

  -- The header, the text and the end of the line, one behind the other.
  three :
      (kind text : Bytes) (l : Logger) {file : Bytes}
      → Fits kind text
      → IsNormal l file
      → let headed =
          append out (line_header (out.realtime_ns (suc l.calls)) kind) (called (called l)) in
        Adds file kind text (append out (b'\n' ∷ []) (append out text headed))
  three kind text l {file} (one, fits, headers) x =
      let header = line_header (out.realtime_ns (suc l.calls)) kind in
      let x1 =
        append-IsNormal header (called (called l)) (headers (suc l.calls))
          (called-IsNormal (called l) (called-IsNormal l x)) in
      let x2 = append-IsNormal text (append out header (called (called l))) fits x1 in
      let x3 =
        append-IsNormal (b'\n' ∷ []) (append out text (append out header (called (called l)))) one
          x2 in
      (suc l.calls, subst (IsNormal _) (regroup file header text (b'\n' ∷ [])) x3)

  second :
      (file kind text : Bytes) (b : Bool) (c d : Logger)
      → b ≡ false
      → Adds file kind text d
      → Adds file kind text (if b then c else d)
  second file kind text true c d e x = absurd (cc e)
  second file kind text false c d e x = x

  sought : (l : Logger) → not (out.seek_ok l.calls) ≡ false
  sought l = rw (room.seeks l.calls) refl

  print_line-Adds :
      (kind text : Bytes) (l : Logger) {file : Bytes}
      → Fits kind text
      → IsNormal l file
      → Adds file kind text (print_line out kind text l)
  unfolding print_line
  print_line-Adds kind text l {file} f x =
      second file kind text l.cyclic_mode _ _ x.at_end
        (second file kind text (not (out.seek_ok l.calls)) _ _ (sought l) (three kind text l f x))

  -- An empty text is not written at all.
  two :
      (kind : Bytes) (l : Logger) {file : Bytes}
      → Fits kind []
      → IsNormal l file
      → let headed =
          append out (line_header (out.realtime_ns (suc l.calls)) kind) (called (called l)) in
        Adds file kind [] (append out (b'\n' ∷ []) headed)
  two kind l {file} (one, fits, headers) x =
      let header = line_header (out.realtime_ns (suc l.calls)) kind in
      let x1 =
        append-IsNormal header (called (called l)) (headers (suc l.calls))
          (called-IsNormal (called l) (called-IsNormal l x)) in
      let x2 = append-IsNormal (b'\n' ∷ []) (append out header (called (called l))) one x1 in
      (suc l.calls, subst (IsNormal _) (append_assoc file header (b'\n' ∷ [])) x2)

  write_line-Adds :
      (kind text : Bytes) (l : Logger) {file : Bytes}
      → Fits kind text
      → IsNormal l file
      → Adds file kind text (write_line out kind text l)
  unfolding write_line write_normal_line
  write_line-Adds kind [] l {file} f x =
      second file kind [] l.cyclic_mode _ _ x.at_end
        (second file kind [] (not (out.seek_ok l.calls)) _ _ (sought l) (two kind l f x))
  write_line-Adds kind (c ∷ text) l {file} f x =
      second file kind (c ∷ text) l.cyclic_mode _ _ x.at_end (
        second file kind (c ∷ text) (not (out.seek_ok l.calls)) _ _ (sought l)
          (three kind (c ∷ text) l f x))

  -- A call of the logger ends, and its line is added.
  abbrev pub AddsTo : Bytes → Bytes → Bytes → Option Logger → Type 0
  AddsTo file kind text o = (t : Logger) × (o ≡ some t) × Adds file kind text t

  pub logger_write-Adds :
      (kind text : Bytes) (l : Logger) {file : Bytes}
      → Fits kind text
      → IsNormal l file
      → AddsTo file kind text (logger_write out kind text l)
  unfolding logger_write
  logger_write-Adds kind text l f x =
      let (t, e, y) = maintained l x in
      (
        write_line out kind text t,
        rw (e, logger_write) (rw (goes_on l x) refl),
        write_line-Adds kind text t f y,
      )

  pub logger_printf-Adds :
      (kind text : Bytes) (l : Logger) {file : Bytes}
      → Fits kind text
      → IsNormal l file
      → AddsTo file kind text (logger_printf out kind text l)
  unfolding logger_printf
  logger_printf-Adds kind text l f x =
      let (t, e, y) = maintained l x in
      (
        print_line out kind text t,
        rw (e, logger_printf) (rw (goes_on l x) refl),
        print_line-Adds kind text t f y,
      )
