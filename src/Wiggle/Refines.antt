-- ===== src/Wiggle/Refines.antt =====
-- src/control/wiggle.c: the operations on the slots implement those on a map from ids that holds at
-- most sixteen entries.
use static_fire.Base.{
  ℕ, suc, ◌+◌, ◌%◌, ◌^◌, ◌≤◌, ◌<◌, Bool, true, false, ◌||◌, Option, none, some, List, [], ◌∷◌, ◌≡◌,
  refl, ◌∙◌, ap, arith, ltb, ◌==◌, if◌then◌else◌, length, All, Bool-cases, inl, inr, ◌⊎◌,
}
use static_fire.App.{App, AppState, prechilling, hotfire, Env}
use static_fire.Wiggle.Lookup.{
  lookup, put, ticked, lookup-Absent, lookup-Idle, lookup-First, lookup-set_found, lookup-set_free,
  lookup-set_cleared, lookup-ticked,
}
use static_fire.Wiggle.Process.{wiggles-process, wiggle_process-IsTable}
use static_fire.Wiggle.Slots.{
  IsTable, Absent, Distinct, Full, find_slot-First, find_slot-none, First-test, holds-eq, Choice,
  full, reuse, fresh, or_alloc-Choice,
}
use static_fire.Wiggle.Start.{wiggle_start-Starts}
use static_fire.Wiggle.Stop.{wiggle_stop_all-Idle, wiggle_stop_all-IsTable, wiggle_stop-Stops}
use static_fire.Wiggle.{
  Slot, find_slot, start_in, wiggle_start, stop_in, wiggle_stop, wiggle_stop_all, wiggle_process,
  deactivate_slot,
}

abbrev pub Table : Type 0
Table = ℕ → Option Slot

-- The operations of the component: their results, where they have one.
pub data Op : Type 0 where
  start : (id start_value end_value exit_value period_ms total_duration_ms : ℕ) → Op
  stop : (id : ℕ) → Op
  stop_all : Bool → Op
  tick : Op

module _ (env : Env) where
  abbrev pub run : Op → App → App × Bool
  run (start id a b c period total) s = wiggle_start env s id a b c period total
  run (stop id) s = wiggle_stop env s id
  run (stop_all exit) s = (wiggle_stop_all env s exit, true)
  run tick s = (wiggle_process env s, true)

-- A new entry, at the time `now`.
abbrev pub begun : ℕ → ℕ → ℕ → ℕ → ℕ → ℕ → ℕ → Slot
begun now id a b c period total = record {
  id = id;
  start_value = a;
  end_value = b;
  current_value = a;
  exit_value = c;
  period_ms = period;
  total_duration_ms = total;
  next_toggle_ms = (now + period) % 2 ^ 64;
  stop_time_ms = if total == 0 then 0 else (now + total) % 2 ^ 64;
  active = true;
}

abbrev pub Same : Table → Table → Type 0
Same t u = (k : ℕ) → t k ≡ u k

abbrev pub is_entry : Option Slot → Bool
is_entry none = false
is_entry (some w) = true

abbrev pub Different : List ℕ → Type 0
Different [] = Unit
Different (i ∷ is) = All (λ j. (i == j) ≡ false) is × Different is

-- Sixteen ids have an entry.
pub record IsCrowded (t : Table) : Type 0 where
  pub ids : List ℕ
  pub sixteen : length ids ≡ 16
  pub different : Different ids
  pub entries : All (λ i. is_entry (t i) ≡ true) ids

-- What an operation does to the map `t`, in the state and at the time given.
abbrev pub Refined : ℕ → AppState → Op → Table → Table × Bool → Type 0
Refined now state (start id a b c period total) t (u, ok) =
    ((ok ≡ true)
      × (id ≤ 0x7FF)
      × (0 < period)
      × Same u (put t id (some (begun now id a b c period total))))
    ⊎ ((ok ≡ false) × ((period ≡ 0) ⊎ (0x7FF < id) ⊎ ((t id ≡ none) × IsCrowded t)) × Same u t)
Refined now state (stop id) t (u, ok) = (ok ≡ is_entry (t id)) × Same u (put t id none)
Refined now state (stop_all exit) t (u, ok) = Same u (λ _. none)
Refined now prechilling tick t (u, ok) = Same u (λ k. ticked now (t k))
Refined now hotfire tick t (u, ok) = Same u t

-- The ids of a table that is full are sixteen entries of the map.
ids_of : List Slot → List ℕ
ids_of [] = []
ids_of (w ∷ ws) = w.id ∷ ids_of ws

length-ids_of : (ws : List Slot) → length (ids_of ws) ≡ length ws
unfolding ids_of
length-ids_of [] = refl
length-ids_of (w ∷ ws) = ap suc (length-ids_of ws)

others-Different :
    (id : ℕ) (ws : List Slot) → Absent id ws → Full ws → All (λ j. (id == j) ≡ false) (ids_of ws)
unfolding ids_of
others-Different id [] ab fu = tt
others-Different id (w ∷ ws) ab fu = (ground (arith, ab.0, fu.0), others-Different id ws ab.1 fu.1)

ids_of-Different : (ws : List Slot) → Full ws → Distinct ws → Different (ids_of ws)
unfolding ids_of
ids_of-Different [] fu d = tt
ids_of-Different (w ∷ ws) fu d =
    (others-Different w.id ws (d.0 fu.0) fu.1, ids_of-Different ws fu.1 d.1)

more_entries :
    (w : Slot) (ws : List Slot) (ids : List ℕ)
    → All (λ i. is_entry (lookup ws i) ≡ true) ids
    → All (λ i. is_entry (lookup (w ∷ ws) i) ≡ true) ids
more_entries w ws [] h = tt
more_entries w ws (i ∷ ids) h = (ground (arith, h.0), more_entries w ws ids h.1)

ids_of-entries : (ws : List Slot) → Full ws → All (λ i. is_entry (lookup ws i) ≡ true) (ids_of ws)
unfolding ids_of
ids_of-entries [] fu = tt
ids_of-entries (w ∷ ws) fu =
    (ground (arith, fu.0), more_entries w ws (ids_of ws) (ids_of-entries ws fu.1))

Full-IsCrowded : (ws : List Slot) → IsTable ws → Full ws → IsCrowded (lookup ws)
Full-IsCrowded ws t fu = record {
  ids = ids_of ws;
  sixteen = length-ids_of ws ∙ t.sixteen;
  different = ids_of-Different ws fu t.distinct;
  entries = ids_of-entries ws fu;
}

module _ (env : Env) where
  start_in-Refined :
      (s : App) (id a b c period total : ℕ)
      → IsTable s.wiggles
      → id ≤ 0x7FF
      → 0 < period
      → {o : Option (ℕ × Slot)} → Choice id s.wiggles o
      → let r = start_in env s o id a b c period total in
        Refined
          (env.monotonic_ms s.calls)
          s.state
          (start id a b c period total)
          (lookup s.wiggles)
          (lookup r.0.wiggles, r.1)
  unfolding start_in
  start_in-Refined s id a b c period total t hid hp (full ab fu) =
      inr
        (refl, inr (inr (lookup-Absent id s.wiggles ab, Full-IsCrowded s.wiggles t fu)), λ k. refl)
  start_in-Refined s id a b c period total t hid hp (reuse {i} {w} f) = inl (
    refl,
    hid,
    hp,
    λ k. lookup-set_found id (begun (env.monotonic_ms s.calls) id a b c period total) k f refl refl,
  )
  start_in-Refined s id a b c period total t hid hp (fresh {i} {w} ab f) = inl (
    refl,
    hid,
    hp,
    λ k.
        lookup-set_free id (begun (env.monotonic_ms s.calls) id a b c period total) k f ab refl
          refl,
  )

  start-Refined :
      (s : App) (id a b c period total : ℕ)
      → IsTable s.wiggles
      → let r = wiggle_start env s id a b c period total in
        Refined
          (env.monotonic_ms s.calls)
          s.state
          (start id a b c period total)
          (lookup s.wiggles)
          (lookup r.0.wiggles, r.1)
  unfolding wiggle_start
  start-Refined s id a b c period total t = elim (Bool-cases (period == 0 || ltb 0x7FF id)) [
    | inl h ↦ rw h (inr (refl, ground arith, λ k. refl))
    | inr h ↦ rw h (
        start_in-Refined s id a b c period total t (ground arith) (ground arith)
          (or_alloc-Choice id s.wiggles))
  ]

  stop_in-Refined :
      (s : App) (id : ℕ)
      → IsTable s.wiggles
      → (o : Option (ℕ × Slot)) → find_slot id s.wiggles ≡ o
      → let r = stop_in env s o in
        Refined
          (env.monotonic_ms s.calls)
          s.state
          (stop id)
          (lookup s.wiggles)
          (lookup r.0.wiggles, r.1)
  unfolding stop_in deactivate_slot
  stop_in-Refined s id t none e =
      let gone = lookup-Absent id s.wiggles (find_slot-none id s.wiggles e) in
      (rw gone refl, λ k. unchanged k gone)
    where
      unchanged :
          (k : ℕ)
          → lookup s.wiggles id ≡ none
          → lookup s.wiggles k ≡ put (lookup s.wiggles) id none k
      unchanged k gone = elim (Bool-cases (id == k)) [
        | inl h ↦ let same : id ≡ k = ground arith in rw h (rw same at gone)
        | inr h ↦ rw h refl
      ]
  stop_in-Refined s id t (some (i, w)) e =
      let f = find_slot-First id s.wiggles e in
      let (on, same) = holds-eq id w (First-test f) in
      (rw (lookup-First id f) refl, λ k. rw on (lookup-set_cleared id k f t.distinct))

  tick-Refined :
      (s : App)
      → IsTable s.wiggles
      → (st : AppState) → s.state ≡ st
      → Refined
          (env.monotonic_ms s.calls)
          st
          tick
          (lookup s.wiggles)
          (lookup (wiggle_process env s).wiggles, true)
  tick-Refined s t prechilling e = λ k. elim (wiggles-process env s) [
    | inl (h, _) ↦ absurd (cc (e, h))
    | inr (_, w) ↦ rw w (lookup-ticked (env.monotonic_ms s.calls) s.wiggles k t.distinct)
  ]
  tick-Refined s t hotfire e =
      λ k. elim (wiggles-process env s) [ inl (_, w) ↦ rw w refl | inr (h, _) ↦ absurd (cc (e, h)) ]

  -- On a well-formed table each operation keeps it well formed, and does to the map from ids to active
  -- slots what the abstract one does: a start puts an entry with the arguments and the time, or it is
  -- refused, for a bad argument or a new id when sixteen ids have entries; a stop removes the entry
  -- and says whether there was one; stopping all leaves no entry; and a tick while prechilling
  -- removes the entries whose time is over and toggles those that are due, in HOTFIRE it does nothing.
  pub run-Refined :
      (op : Op) (s : App)
      → IsTable s.wiggles
      → IsTable (run env op s).0.wiggles
        × Refined
            (env.monotonic_ms s.calls)
            s.state
            op
            (lookup s.wiggles)
            (lookup (run env op s).0.wiggles, (run env op s).1)
  run-Refined (start id a b c period total) s t = (
    (wiggle_start-Starts env s id a b c period total t).0,
    start-Refined s id a b c period total t,
  )
  run-Refined (stop id) s t = (
    (wiggle_stop-Stops env s id t).0,
    unfold wiggle_stop in stop_in-Refined s id t (find_slot id s.wiggles) refl,
  )
  run-Refined (stop_all exit) s t = (
    wiggle_stop_all-IsTable env s exit t,
    λ k. lookup-Idle (wiggle_stop_all env s exit).wiggles k (wiggle_stop_all-Idle env s exit).0,
  )
  run-Refined tick s t = (wiggle_process-IsTable env s t, tick-Refined s t s.state refl)
