-- ===== src/Bus/Received.antt =====
-- src/can/can_bus.c: what the table of received values holds, and what a report takes from it.
use static_fire.Base.Int.{pos, is_negative, to_ℕ}
use static_fire.Base.{
  Bytes, ℕ, zero, suc, ◌+◌, ◌-◌, ◌≤◌, ◌<◌, ◌^◌, ◌%◌, Bool, true, false, not, ◌||◌, [], ◌∷◌, ◌++◌,
  ◌≡◌, refl, arith, leb, ◌==◌, if◌then◌else◌, length, length-append, length-take, take, Bool-cases,
  inl, inr, ◌⊎◌,
}
use static_fire.App.{App, CanFrame, can_id_count}
use static_fire.Bus.{
  command_frame, frame_value, is_special, update, entry_text, store_rx, format_from, format_dirty,
}
use static_fire.Bus.Frames.{frame_value-command_frame}

command_frame-special :
    (id value d : ℕ) → id ≤ 0x7FF → is_special (command_frame id value d) ≡ false
unfolding is_special command_frame
command_frame-special id value d h = ground arith

command_frame-id : (id value d : ℕ) → (command_frame id value d).can_id ≡ id
unfolding command_frame
command_frame-id id value d = refl

store_rx-values :
    (s : App) (f : CanFrame)
    → is_special f ≡ false
    → ((store_rx s f).can_values ≡ update s.can_values (f.can_id % 0x800) (pos (frame_value f)))
      × ((store_rx s f).can_dirty ≡ update s.can_dirty (f.can_id % 0x800) true)
unfolding store_rx
store_rx-values s f h = rw h (refl, refl)

-- A received command frame puts its value in the entry of its id, marks it for the next report, and
-- leaves every other entry.
pub store_rx-command_frame :
    (s : App) (id value d j : ℕ)
    → id ≤ 0x7FF
    → value < 2 ^ 16
    → ((store_rx s (command_frame id value d)).can_values j
        ≡ (if id == j then pos value else s.can_values j))
      × ((store_rx s (command_frame id value d)).can_dirty j
          ≡ (if id == j then true else s.can_dirty j))
store_rx-command_frame s id value d j h b =
    let (v, w) =
      store_rx-values s (command_frame id value d) (command_frame-special id value d h) in
    let m : id % 0x800 ≡ id = omega arith in
    rw (v, w, frame_value-command_frame id value d b, command_frame-id id value d, m) (refl, refl)

-- How a report leaves the table: no value changes, and a flag that it clears was set, at an id from
-- `id` on that has a value.
pub record Reported (id : ℕ) (s t : App) : Type 0 where
  pub values : t.can_values ≡ s.can_values
  pub flags :
      (j : ℕ)
      → (t.can_dirty j ≡ s.can_dirty j)
        ⊎ ((t.can_dirty j ≡ false)
            × (s.can_dirty j ≡ true)
            × (id ≤ j)
            × (is_negative (s.can_values j) ≡ false))

Reported-none : (id : ℕ) (s : App) → Reported id s s
Reported-none id s = record { values = refl; flags = λ j. inl refl }

Reported-later : {id : ℕ} {s t : App} → Reported (id + 1) s t → Reported id s t
Reported-later {id} {s} {t} r = record { values = r.values; flags = λ j. ground (arith, r.flags j) }

Reported-put :
    (id : ℕ) (s t : App)
    → (not (s.can_dirty id) || is_negative (s.can_values id)) ≡ false
    → Reported (id + 1) (record s { can_dirty = update s.can_dirty id false }) t
    → Reported id s t
Reported-put id s t h r = record {
  values = r.values;
  flags = λ j. elim (Bool-cases (id == j)) [
    | inl k ↦ ground (arith, r.flags j)
    | inr k ↦ ground (arith, r.flags j)
  ];
}

format_from-Reported :
    (rounds id capacity : ℕ) (s : App) (buffer : Bytes)
    → length buffer < capacity
    → (length (format_from rounds id capacity s buffer).0 < capacity)
      × Reported id s (format_from rounds id capacity s buffer).1
unfolding format_from
format_from-Reported zero id capacity s buffer b = (b, Reported-none id s)
format_from-Reported (suc rounds) id capacity s buffer b =
    let written = entry_text id (to_ℕ (s.can_values id) % 2 ^ 16) ++ (b'|' ∷ []) in
    let cleared = record s { can_dirty = update s.can_dirty id false } in
    let skip = format_from-Reported rounds (id + 1) capacity s buffer b in
    elim (Bool-cases (not (s.can_dirty id) || is_negative (s.can_values id))) [
      | inl h ↦ rw h (skip.0, Reported-later skip.1)
      | inr h ↦ elim (Bool-cases (leb (capacity - length buffer) (length written))) [
        | inl k ↦ rw (h, k) (b, Reported-none id s)
        | inr k ↦
            let fits : length (buffer ++ written) < capacity =
              rw (length-append buffer written) (ground arith) in
            let put =
              format_from-Reported rounds (id + 1) capacity cleared (buffer ++ written) fits in
            rw (h, k) (put.0, Reported-put id s _ h put.1)
      ]
    ]

format_in-Reported :
    (b : Bool) (capacity : ℕ) (s : App) (r : Bytes × App)
    → length r.0 < capacity
    → Reported 0 s r.1
    → let t = if◌then◌else◌ {A = Bytes × App} b ([], s) (take (length r.0 - 1) r.0, r.1) in
      (length t.0 < capacity) × Reported 0 s t.1
format_in-Reported true capacity s r b x = (omega arith, Reported-none 0 s)
format_in-Reported false capacity s r b x =
    (rw (length-take (length r.0 - 1) r.0) (ground arith), x)

-- A report fits its buffer with the zero byte behind it, changes no value, and clears only flags that
-- were set, of ids that have a value.
pub format_dirty-Reported :
    (s : App) (capacity : ℕ)
    → 0 < capacity
    → (length (format_dirty s capacity).0 < capacity) × Reported 0 s (format_dirty s capacity).1
unfolding format_dirty
format_dirty-Reported s capacity h =
    let (b, r) = format_from-Reported can_id_count 0 capacity s [] h in
    format_in-Reported (capacity == 0) capacity s (format_from can_id_count 0 capacity s []) b r
