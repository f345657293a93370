-- ===== src/Wiggle/Ticked.antt =====
-- src/control/wiggle.c: a slot before and after one tick.
use static_fire.Base.{
  ℕ, ◌≤◌, ◌<◌, ◌+◌, ◌%◌, ◌^◌, true, false, List, [], ◌∷◌, ◌≡◌, ◌≢◌, refl, arith, ◌⊎◌, inl, inr,
  if◌then◌else◌, ltb, ◌==◌, map, Bool-cases,
}
use static_fire.App.{zero_slot}
use static_fire.Wiggle.{Slot, next_value, is_over}

-- The slot after a tick at time `now`.
unfoldable pub slot_after : ℕ → Slot → Slot
slot_after now w =
    if w.active
    then (if is_over now w then zero_slot else if ltb now w.next_toggle_ms then w else record w {
      current_value = next_value w;
      next_toggle_ms = (now + w.period_ms) % 2 ^ 64;
    })
    else w

-- The slot has no stop time, or it lies ahead.
abbrev pub GoesOn : ℕ → Slot → Type 0
GoesOn now w = (w.total_duration_ms ≡ 0) ⊎ ((w.stop_time_ms ≡ 0) ⊎ (now < w.stop_time_ms))

-- The valve goes to the other of the two values: to the end value from the start value, and to the
-- start value from any other.
abbrev pub Moves : ℕ → Slot → Slot → Type 0
Moves now w v =
    ((w.current_value ≡ w.start_value)
      × (v ≡ record w {
        current_value = w.end_value;
        next_toggle_ms = (now + w.period_ms) % 2 ^ 64;
      }))
    ⊎ ((w.current_value ≢ w.start_value)
        × (v ≡ record w {
          current_value = w.start_value;
          next_toggle_ms = (now + w.period_ms) % 2 ^ 64;
        }))

-- A slot before and after a tick at `now`: inactive, and the same; over, and cleared; not due yet, and
-- the same; or due, and moved.
abbrev pub Ticked : ℕ → Slot → Slot → Type 0
Ticked now w v =
    ((w.active ≡ false) × (v ≡ w))
    ⊎ ((w.active ≡ true)
        × (((0 < w.total_duration_ms)
              × (0 < w.stop_time_ms)
              × (w.stop_time_ms ≤ now)
              × (v ≡ zero_slot))
            ⊎ (GoesOn now w
                × (((now < w.next_toggle_ms) × (v ≡ w))
                    ⊎ ((w.next_toggle_ms ≤ now) × Moves now w v)))))

-- A table before and after, slot by slot.
abbrev pub AllTicked : ℕ → List Slot → List Slot → Type 0
AllTicked now [] [] = Unit {0}
AllTicked now [] (v ∷ vs) = ⊥
AllTicked now (w ∷ ws) [] = ⊥
AllTicked now (w ∷ ws) (v ∷ vs) = Ticked now w v × AllTicked now ws vs

going : (now : ℕ) (w : Slot) → is_over now w ≡ false → GoesOn now w
unfolding is_over
going now w h = ground arith

over :
    (now : ℕ) (w : Slot)
    → is_over now w ≡ true
    → (0 < w.total_duration_ms) × (0 < w.stop_time_ms) × (w.stop_time_ms ≤ now)
unfolding is_over
over now w h = ground arith

slot_after-Moves :
    (now : ℕ) (w : Slot)
    → Moves now w
        (record w { current_value = next_value w; next_toggle_ms = (now + w.period_ms) % 2 ^ 64 })
unfolding next_value
slot_after-Moves now w = elim (Bool-cases (w.current_value == w.start_value)) [
  | inl h ↦ inl (ground arith, rw h refl)
  | inr h ↦ inr (ground arith, rw h refl)
]

slot_after-Ticked : (now : ℕ) (w : Slot) → Ticked now w (slot_after now w)
unfolding slot_after
slot_after-Ticked now w = elim (Bool-cases w.active) [
  | inr h ↦ inl (h, ground (arith, h))
  | inl h ↦ inr (
    h,
    elim (Bool-cases (is_over now w)) [
      | inl k ↦ let (a, b, c) = over now w k in inl (a, b, c, ground (arith, h, k))
      | inr k ↦ inr (
        going now w k,
        elim (Bool-cases (ltb now w.next_toggle_ms)) [
          | inl l ↦ inl (ground arith, ground (arith, h, k, l))
          | inr l ↦ inr (ground arith, ground (arith, h, k, l, slot_after-Moves now w))
        ],
      )
    ],
  )
]

pub All-Ticked : (now : ℕ) (ws : List Slot) → AllTicked now ws (map (slot_after now) ws)
All-Ticked now [] = tt
All-Ticked now (w ∷ ws) = (slot_after-Ticked now w, All-Ticked now ws)
