-- ===== src/Logger/Maintenance/Total.antt =====
-- src/util/logger.c: the loop over the old logs, and the log behind each operation.
use static_fire.Base.{
  Bytes, ℕ, zero, suc, ◌<◌, Bool, true, false, Option, none, some, List, [], ◌∷◌, ◌≡◌, refl, ◌∙◌,
  ap, sym, arith, ltb, leb, ◌==◌, inl, inr, if◌then◌else◌, length, All, Bool-cases, subst,
}
use static_fire.Logger.{Logger, Outside, called, leave_cyclic, min_free_percent}
use static_fire.Logger.Cyclic.{
  with_capacity, reserve, advance, prepare_open, prepare_cyclic_mode, put_bytes, put_reserved,
  write_reserved, write_open, write_cyclic_bytes,
}
use static_fire.Logger.Cyclic.Ring.{IsRing, Inside, prepare_cyclic_mode-IsRing}
use static_fire.Logger.Oldest.{find_oldest_deletable_log}
use static_fire.Logger.Maintenance.{
  unlinked_path, get_free_percent, enter_cyclic, after_unlink, delete_found, delete_oldest,
  delete_logs,
}
use static_fire.Logger.Maintenance.Safety.{IsLog, IsDeletable, Found, find_oldest-Found}

-- What writing in place leaves alone.
abbrev keep : Logger → Bytes × Bytes × List Bytes × Bool
keep l = (l.log_dir, l.current_path, l.unlinked, l.cyclic_mode)

module _ (out : Outside) where
  keep-prepare : (o : Option Bytes) (l : Logger) → keep (prepare_open out o l).0 ≡ keep l
  unfolding prepare_open with_capacity
  keep-prepare none l = refl
  keep-prepare (some file) l = elim (Bool-cases (out.flush_ok l.calls)) [
    | inr h ↦ rw h refl
    | inl h ↦ elim (Bool-cases (out.fstat_ok (suc l.calls))) [
      | inr j ↦ rw (h, j) refl
      | inl j ↦ rw (h, j) refl
    ]
  ]

  keep-put :
      (text : Bytes) (o : Option Bytes) (l : Logger) → keep (put_reserved out o text l).0 ≡ keep l
  unfolding put_reserved put_bytes reserve advance
  keep-put text none l = refl
  keep-put text (some file) l = elim (Bool-cases (out.seek_ok l.calls)) [
    | inr h ↦ rw h refl
    | inl h ↦ elim (Bool-cases (ltb (out.taken (suc l.calls)) (length text))) [
      | inl k ↦ rw (h, k) refl
      | inr k ↦ rw (h, k) refl
    ]
  ]

  keep-reserved : (text : Bytes) (r : Logger × Bool) → keep (write_reserved out text r).0 ≡ keep r.0
  unfolding write_reserved
  keep-reserved text (l, false) = refl
  keep-reserved text (l, true) = keep-put text l.fp l

  pub keep-write : (text : Bytes) (l : Logger) → keep (write_cyclic_bytes out text l).0 ≡ keep l
  unfolding write_cyclic_bytes
  keep-write text l = go l.fp text
    where
      start : (b : Bool) → keep (if b then prepare_cyclic_mode out l else (l, true)).0 ≡ keep l
      start true = unfold prepare_cyclic_mode in keep-prepare l.fp l
      start false = refl

      go : (o : Option Bytes) (t : Bytes) → keep (write_open out o t l).0 ≡ keep l
      go none t = unfold write_open in refl
      go (some file) [] = unfold write_open in refl
      go (some file) (c ∷ t) =
          unfold write_open in
          keep-reserved (c ∷ t)
            (if l.cyclic_capacity_bytes == 0 then prepare_cyclic_mode out l else (l, true))
          ∙ start (l.cyclic_capacity_bytes == 0)

-- A log in which lines are written in place, with what was deleted.
pub record IsKept (l : Logger) : Type 0 where
  pub cyclic : l.cyclic_mode ≡ true
  pub deleted : All (IsDeletable l.log_dir l.current_path) l.unlinked

pub IsKept-keep : (l t : Logger) → keep t ≡ keep l → IsKept l → IsKept t
IsKept-keep l t e x = record {
  cyclic = ap (λ (k : Bytes × Bytes × List Bytes × Bool). k.3) e ∙ x.cyclic;
  deleted =
      subst (λ (k : Bytes × Bytes × List Bytes × Bool). All (IsDeletable k.0 k.1) k.2) (sym e)
        x.deleted;
}

pub IsKept-IsLog : (l : Logger) → IsRing l → IsKept l → IsLog l
IsKept-IsLog l r k = record {
  ring = r;
  normal = λ h. absurd (cc (k.cyclic, h));
  deleted = k.deleted;
}

pub IsLog-called : (l : Logger) → IsLog l → IsLog (called l)
IsLog-called l x = record {
  ring = record { bounds = x.ring.bounds; inside = x.ring.inside };
  normal = x.normal;
  deleted = x.deleted;
}

pub leave_cyclic-IsLog : (l : Logger) → IsLog l → IsLog (leave_cyclic l)
unfolding leave_cyclic
leave_cyclic-IsLog l x = record {
  ring = record { bounds = inl (refl, refl); inside = no_capacity l.fp };
  normal = λ _. refl;
  deleted = x.deleted;
}
  where
    no_capacity : (o : Option Bytes) → Inside o 0
    no_capacity none = tt
    no_capacity (some file) = inl refl

module _ (out : Outside) where
  enter_cyclic-IsLog : (l : Logger) → IsLog l → IsLog (enter_cyclic out l)
  unfolding enter_cyclic prepare_cyclic_mode
  enter_cyclic-IsLog l x =
      let on = record l { cyclic_mode = true } in
      let ring =
        prepare_cyclic_mode-IsRing out on
          (record { bounds = x.ring.bounds; inside = x.ring.inside }) in
      let kept =
        IsKept-keep on _ (keep-prepare out l.fp on)
          (record { cyclic = refl; deleted = x.deleted }) in
      IsKept-IsLog (prepare_cyclic_mode out on).0 ring kept

  after_unlink-IsLog :
      (l : Logger) (o : Option ℕ)
      → IsLog l
      → IsLog (after_unlink out l o).0
        × (length (after_unlink out l o).0.entries ≡ length l.entries)
  unfolding after_unlink leave_cyclic
  after_unlink-IsLog l none x = (x, refl)
  after_unlink-IsLog l (some free) x = elim (Bool-cases (leb min_free_percent free)) [
    | inl h ↦ rw h (unfold leave_cyclic in leave_cyclic-IsLog l x, refl)
    | inr h ↦ rw h (x, refl)
  ]

  -- A round keeps the log well formed, and another round has fewer entries.
  delete_found-IsLog :
      (l : Logger) (found : Option (Option Bytes))
      → IsLog l
      → Found l found
      → IsLog (delete_found out l found).0
        × ((delete_found out l found).1 ≡ true
            → length (delete_found out l found).0.entries < length l.entries)
  unfolding delete_found Found
  delete_found-IsLog l none x f = (x, λ e. absurd (cc e))
  delete_found-IsLog l (some none) x f = (enter_cyclic-IsLog l x, λ e. absurd (cc e))
  delete_found-IsLog l (some (some path)) x f =
      let gone = unlinked_path path l in
      let after = (get_free_percent out gone).0 in
      let free = (get_free_percent out gone).1 in
      let y : IsLog after =
        unfold get_free_percent unlinked_path in
        record {
          ring = record { bounds = x.ring.bounds; inside = x.ring.inside };
          normal = x.normal;
          deleted = (f.0, x.deleted);
        } in
      let (z, same) = after_unlink-IsLog after free y in
      let fewer : length after.entries < length l.entries =
        unfold get_free_percent unlinked_path in f.1 in
      elim (Bool-cases (out.unlink_ok l.calls)) [
        | inl h ↦ rw h (z, λ _. rw same fewer)
        | inr h ↦ rw h (IsLog-called l x, λ e. absurd (cc e))
      ]

  delete_oldest-IsLog :
      (l : Logger)
      → IsLog l
      → IsLog (delete_oldest out l).0
        × ((delete_oldest out l).1 ≡ true
            → length (delete_oldest out l).0.entries < length l.entries)
  unfolding delete_oldest find_oldest_deletable_log
  delete_oldest-IsLog l x =
      delete_found-IsLog (called l) _ (IsLog-called l x)
        (unfold find_oldest_deletable_log in find_oldest-Found out l)

  pub delete_logs_total :
      (fuel : ℕ) (l : Logger)
      → length l.entries < fuel
      → IsLog l
      → (t : Logger) × (delete_logs out fuel l ≡ some t) × IsLog t
  unfolding delete_logs
  delete_logs_total zero l h x = absurd (omega arith)
  delete_logs_total (suc fuel) l h x =
      let (y, fewer) = delete_oldest-IsLog l x in
      elim (Bool-cases (delete_oldest out l).1) [
        | inr k ↦ ((delete_oldest out l).0, rw k refl, y)
        | inl k ↦
            let (t, e, z) =
              delete_logs_total fuel (delete_oldest out l).0 (omega (arith, fewer k)) y in
            (t, rw k e, z)
      ]
