-- ===== src/Logger/Maintenance/Runs.antt =====
-- src/util/logger.c: the maintenance ends.
use static_fire.Base.{
  ℕ, suc, ◌+◌, ◌%◌, ◌^◌, not, ◌||◌, Option, none, some, ◌≡◌, refl, arith, ltb, leb, inl, inr,
  length, Bool-cases,
}
use static_fire.Logger.{
  Logger, Outside, called, leave_cyclic, min_free_percent, maintenance_interval_ms,
}
use static_fire.Logger.Maintenance.{
  free_percent, get_free_percent, keep_free, run_maintenance, maybe_run_maintenance, is_open,
}
use static_fire.Logger.Maintenance.Safety.{IsLog}
use static_fire.Logger.Maintenance.Total.{IsLog-called, leave_cyclic-IsLog, delete_logs_total}

-- The operation ends, and leaves a well-formed log.
abbrev pub Ends : Option Logger → Type 0
Ends o = (t : Logger) × (o ≡ some t) × IsLog t

module _ (out : Outside) where
  keep_free_total : (l : Logger) (o : Option ℕ) → IsLog l → Ends (keep_free out l o)
  unfolding keep_free
  keep_free_total l none x = (l, refl, x)
  keep_free_total l (some free) x = elim (Bool-cases (leb min_free_percent free)) [
    | inl h ↦ (leave_cyclic l, rw h refl, leave_cyclic-IsLog l x)
    | inr h ↦
        let (t, e, y) = delete_logs_total out (suc (length l.entries)) l (omega arith) x in
        (t, rw h e, y)
  ]

  run_maintenance_total : (l : Logger) → IsLog l → Ends (run_maintenance out l)
  unfolding run_maintenance get_free_percent
  run_maintenance_total l x =
      elim (Bool-cases (ltb (out.monotonic_ms l.calls) l.next_maintenance_ms)) [
        | inl h ↦ (called l, rw h refl, IsLog-called l x)
        | inr h ↦
            let now = out.monotonic_ms l.calls in
            let due = record (called (called l)) {
              next_maintenance_ms = (now + maintenance_interval_ms) % 2 ^ 64;
            } in
            let (t, e, y) = keep_free_total due (free_percent (out.statvfs (suc l.calls))) (record {
              ring = record { bounds = x.ring.bounds; inside = x.ring.inside };
              normal = x.normal;
              deleted = x.deleted;
            }) in
            (t, rw h e, y)
      ]

  pub maybe_run_maintenance_total : (l : Logger) → IsLog l → Ends (maybe_run_maintenance out l)
  unfolding maybe_run_maintenance
  maybe_run_maintenance_total l x = elim (Bool-cases (not l.enabled || not (is_open l.fp))) [
    | inl h ↦ (l, rw h refl, x)
    | inr h ↦ let (t, e, y) = run_maintenance_total l x in (t, rw h e, y)
  ]
