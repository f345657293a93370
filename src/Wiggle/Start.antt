-- ===== src/Wiggle/Start.antt =====
-- src/control/wiggle.c: what `wiggle_start` does to the table of slots.
use static_fire.Base.{
  ℕ, ◌≤◌, ◌<◌, ◌+◌, ◌%◌, ◌^◌, Bool, true, false, ◌||◌, Option, some, ◌≡◌, refl, arith, Bool-cases,
  inl, inr, ◌⊎◌, ltb, ◌==◌, set,
}
use static_fire.App.{App, Env}
use static_fire.Wiggle.Slots.{
  IsTable, Absent, Distinct, Distinct-set-Absent, Distinct-set_found, find_slot-set_found,
  find_slot-set-Absent, IsTable-set, Choice, full, reuse, fresh, or_alloc-Choice, Full,
}
use static_fire.Wiggle.{Slot, start_in, wiggle_start, filled, find_slot}

module _ (env : Env) where
  -- The slot that `wiggle_start` leaves for an id.
  pub record Started (s : App) (id a b c period total : ℕ) (w : Slot) : Type 0 where
    pub same_id : w.id ≡ id
    pub is_active : w.active ≡ true
    pub starts : w.start_value ≡ a
    pub ends : w.end_value ≡ b
    pub current : w.current_value ≡ a
    pub exits : w.exit_value ≡ c
    pub period_is : w.period_ms ≡ period
    pub total_is : w.total_duration_ms ≡ total
    pub toggles : w.next_toggle_ms ≡ (env.monotonic_ms s.calls + period) % 2 ^ 64

  start_slot : App → Slot → ℕ → ℕ → ℕ → ℕ → ℕ → ℕ → Slot
  start_slot s w id a b c period total = record w {
    id = id;
    start_value = a;
    end_value = b;
    current_value = a;
    exit_value = c;
    period_ms = period;
    total_duration_ms = total;
    active = true;
    next_toggle_ms = (env.monotonic_ms s.calls + period) % 2 ^ 64;
    stop_time_ms = (filled w (env.monotonic_ms s.calls) id a b c period total).stop_time_ms;
  }

  start_slot-Started :
      (s : App) (w : Slot) (id a b c period total : ℕ)
      → Started s id a b c period total (start_slot s w id a b c period total)
  unfolding start_slot
  start_slot-Started s w id a b c period total = ground arith

  start_in-some :
      (s : App) (i : ℕ) (w : Slot) (id a b c period total : ℕ)
      → ((start_in env s (some (i, w)) id a b c period total).0.wiggles
          ≡ set s.wiggles i (start_slot s w id a b c period total))
        × ((start_in env s (some (i, w)) id a b c period total).1 ≡ true)
  unfolding start_in start_slot
  start_in-some s i w id a b c period total = (refl, refl)

  -- The outcome of `wiggle_start` with the slot that was chosen.
  record Outcome (s : App) (id a b c period total : ℕ) (r : App × Bool) : Type 0 where
    table : IsTable r.0.wiggles
    found :
        r.1 ≡ true
        → (i : ℕ) × (w : Slot) × (find_slot id r.0.wiggles ≡ some (i, w))
          × Started s id a b c period total w
    refused : r.1 ≡ false → (r.0 ≡ s) × Absent id s.wiggles × Full s.wiggles

  put-Outcome :
      (s : App) (id a b c period total i : ℕ) (w : Slot)
      → IsTable s.wiggles
      → id ≤ 0x7FF
      → 0 < period
      → let new = start_slot s w id a b c period total in
        Distinct (set s.wiggles i new)
        → find_slot id (set s.wiggles i new) ≡ some (i, new)
        → Outcome s id a b c period total (start_in env s (some (i, w)) id a b c period total)
  put-Outcome s id a b c period total i w t hid hp d f =
      let (put, done) = start_in-some s i w id a b c period total in
      let new = start_slot s w id a b c period total in
      let st = start_slot-Started s w id a b c period total in
      record {
        table =
            rw put (IsTable-set s.wiggles i new t (λ _. (rw st.same_id hid, rw st.period_is hp)) d);
        found = λ _. (i, new, rw put f, st);
        refused = λ e. absurd (cc (done, e));
      }

  start_in-Outcome :
      (s : App) (id a b c period total : ℕ)
      → IsTable s.wiggles
      → id ≤ 0x7FF
      → 0 < period
      → {o : Option (ℕ × Slot)} → Choice id s.wiggles o
      → Outcome s id a b c period total (start_in env s o id a b c period total)
  start_in-Outcome s id a b c period total t hid hp (full ab fu) = record {
    table = unfold start_in in t;
    found = λ e. unfold start_in in cc;
    refused = λ e. unfold start_in in (refl, ab, fu);
  }
  start_in-Outcome s id a b c period total t hid hp (reuse {i} {w} f) =
      let new = start_slot s w id a b c period total in
      let st = start_slot-Started s w id a b c period total in
      put-Outcome s id a b c period total i w t hid hp
        (Distinct-set_found id new f (λ _. st.same_id) t.distinct)
        (find_slot-set_found id new f (ground (arith, st.is_active, st.same_id)))
  start_in-Outcome s id a b c period total t hid hp (fresh {i} {w} ab f) =
      let new = start_slot s w id a b c period total in
      let st = start_slot-Started s w id a b c period total in
      put-Outcome s id a b c period total i w t hid hp
        (Distinct-set-Absent id s.wiggles i new (λ _. st.same_id) ab t.distinct)
        (find_slot-set-Absent id new f (ground (arith, st.is_active, st.same_id)) ab)

  -- What `wiggle_start` promises, on every branch.
  abbrev pub Starts : App → ℕ → ℕ → ℕ → ℕ → ℕ → ℕ → App × Bool → Type 0
  Starts s id a b c period total r =
      IsTable r.0.wiggles
      × (r.1 ≡ true
          → (id ≤ 0x7FF)
            × (0 < period)
            × ((i : ℕ) × (w : Slot) × (find_slot id r.0.wiggles ≡ some (i, w))
                × Started s id a b c period total w))
      × (r.1 ≡ false
          → (r.0 ≡ s) × ((period ≡ 0) ⊎ (0x7FF < id) ⊎ (Absent id s.wiggles × Full s.wiggles)))

  -- On a well-formed table, `wiggle_start` keeps it well formed. Either it succeeds, for a standard id
  -- and a period other than 0, and the id has an active slot with the arguments; or it fails, nothing
  -- was done, and an argument is bad or all slots are active for other ids.
  pub wiggle_start-Starts :
      (s : App) (id a b c period total : ℕ)
      → IsTable s.wiggles
      → Starts s id a b c period total (wiggle_start env s id a b c period total)
  unfolding wiggle_start
  wiggle_start-Starts s id a b c period total t = elim (Bool-cases (period == 0 || ltb 0x7FF id)) [
    | inl h ↦ rw h (t, λ e. absurd (cc e), λ _. (refl, ground arith))
    | inr h ↦
        let hid : id ≤ 0x7FF = ground arith in
        let hp : 0 < period = ground arith in
        let o = start_in-Outcome s id a b c period total t hid hp (or_alloc-Choice id s.wiggles) in
        rw h (
          o.table,
          λ e. (hid, hp, o.found e),
          λ e. ((o.refused e).0, inr (inr ((o.refused e).1, (o.refused e).2))),
        )
  ]
