-- ===== src/Wiggle/Process.antt =====
-- src/control/wiggle.c: what one tick, `wiggle_process`, does to the table of slots.
use static_fire.Base.{
  ℕ, ◌<◌, ◌+◌, ◌^◌, true, false, List, [], ◌∷◌, ◌≡◌, refl, ◌∙◌, arith, ap, sym, subst, ap₂, ◌⊎◌,
  inl, inr, length, map, All,
}
use static_fire.Wiggle.Offered.{offered, tick_frames, wiggle_process-offered}
use static_fire.Wiggle.Ticked.{slot_after, GoesOn, AllTicked, All-Ticked}
use static_fire.App.{App, AppState, prechilling, hotfire, Env, called}
use static_fire.Wiggle.Slots.{IsSlot, IsTable, Distinct}
use static_fire.Wiggle.{
  Slot, holds, send_value, process_slot, process_slots, process_in, wiggle_process, is_over,
}

length-map : (f : Slot → Slot) (ws : List Slot) → length (map f ws) ≡ length ws
length-map f [] = refl
length-map f (w ∷ ws) = ap ℕ.suc (length-map f ws)

module _ (P : Slot → Type 0) (f : Slot → Slot) (keeps : (w : Slot) → P w → P (f w)) where
  All-map : (ws : List Slot) → All P ws → All P (map f ws)
  All-map [] a = tt
  All-map (w ∷ ws) a = (keeps w a.0, All-map ws a.1)

module _ (f : Slot → Slot)
    (same : (w : Slot) → (f w).active ≡ true → (w.active ≡ true) × ((f w).id ≡ w.id)) where
  holds-map : (id : ℕ) (w : Slot) → holds id w ≡ false → holds id (f w) ≡ false
  holds-map id w h = ground (arith, same w)

  Distinct-map : (ws : List Slot) → Distinct ws → Distinct (map f ws)
  Distinct-map [] d = tt
  Distinct-map (w ∷ ws) d = (
    λ h.
        let (on, eq) = same w h in
        rw eq (All-map (λ v. holds w.id v ≡ false) f (holds-map w.id) ws (d.0 on)),
    Distinct-map ws d.1,
  )

slot_after-same :
    (now : ℕ) (w : Slot)
    → (slot_after now w).active ≡ true
    → (w.active ≡ true) × ((slot_after now w).id ≡ w.id)
unfolding slot_after
slot_after-same now w h = ground arith

slot_after-IsSlot : (now : ℕ) (w : Slot) → IsSlot w → IsSlot (slot_after now w)
unfolding slot_after
slot_after-IsSlot now w h = ground arith

-- Nothing is left to do at `now`.
abbrev pub UpToDate : ℕ → Slot → Type 0
UpToDate now w = w.active ≡ true → (now < w.next_toggle_ms) × GoesOn now w

slot_after-UpToDate :
    (now : ℕ) (w : Slot) → IsSlot w → now + w.period_ms < 2 ^ 64 → UpToDate now (slot_after now w)
unfolding slot_after is_over
slot_after-UpToDate now w h b = ground arith

All-UpToDate :
    (now : ℕ) (ws : List Slot)
    → All IsSlot ws
    → All (λ w. now + w.period_ms < 2 ^ 64) ws
    → All (UpToDate now) (map (slot_after now) ws)
All-UpToDate now [] a b = tt
All-UpToDate now (w ∷ ws) a b = (slot_after-UpToDate now w a.0 b.0, All-UpToDate now ws a.1 b.1)

module _ (env : Env) where
  process_slot-after :
      (now : ℕ) (s : App) (w : Slot) → (process_slot env now s w).0 ≡ slot_after now w
  unfolding process_slot slot_after send_value
  process_slot-after now s w = ground arith

  process_slots-after :
      (now : ℕ) (ws : List Slot) (s : App)
      → (process_slots env now ws s).0 ≡ map (slot_after now) ws
  unfolding process_slots
  process_slots-after now [] s = refl
  process_slots-after now (w ∷ ws) s =
      ap₂ ◌∷◌ (process_slot-after now s w) (process_slots-after now ws _)

  -- In HOTFIRE a tick does nothing; else each slot becomes what `slot_after` says.
  pub wiggles-process :
      (s : App)
      → ((s.state ≡ hotfire) × (wiggle_process env s ≡ s))
        ⊎ ((s.state ≡ prechilling)
            × ((wiggle_process env s).wiggles
                ≡ map (slot_after (env.monotonic_ms s.calls)) s.wiggles))
  unfolding wiggle_process
  wiggles-process s = go s.state refl
    where
      go :
          (st : AppState)
          → s.state ≡ st
          → ((s.state ≡ hotfire) × (process_in env st s ≡ s))
            ⊎ ((s.state ≡ prechilling)
                × ((process_in env st s).wiggles
                    ≡ map (slot_after (env.monotonic_ms s.calls)) s.wiggles))
      go hotfire e = inl (e, unfold process_in in refl)
      go prechilling e = inr (e, unfold process_in in process_slots-after _ s.wiggles (called s))

  map-IsTable : (now : ℕ) (ws : List Slot) → IsTable ws → IsTable (map (slot_after now) ws)
  map-IsTable now ws t = record {
    sixteen = length-map (slot_after now) ws ∙ t.sixteen;
    slots = All-map IsSlot (slot_after now) (slot_after-IsSlot now) ws t.slots;
    distinct = Distinct-map (slot_after now) (slot_after-same now) ws t.distinct;
  }

  pub wiggle_process-IsTable :
      (s : App) → IsTable s.wiggles → IsTable (wiggle_process env s).wiggles
  wiggle_process-IsTable s t = elim (wiggles-process s) [
    | inl (_, e) ↦ rw e t
    | inr (_, e) ↦ rw e (map-IsTable _ s.wiggles t)
  ]

  -- A tick while prechilling keeps a well-formed table well formed, and does to each slot what its times
  -- say: an inactive slot stays as it is; an active one whose stop time is set and reached is
  -- cleared; one whose time of the next move lies ahead stays as it is; any other goes from its
  -- start value to its end value, or back from any other value to its start value, and its next move
  -- is a period later. If no sum of the time of the tick and a period passes 64 bits, no active slot
  -- is due or has to stop at that time any more. What the tick writes to an open CAN socket, taken or
  -- not, is the exit value of each slot that it clears and the new value of each that it moves, in
  -- the order of the table, and no other frame; without a socket it writes none.
  pub wiggle_process_lem :
      (s : App)
      → s.state ≡ prechilling
      → IsTable s.wiggles
      → All (λ w. env.monotonic_ms s.calls + w.period_ms < 2 ^ 64) s.wiggles
      → IsTable (wiggle_process env s).wiggles
        × AllTicked (env.monotonic_ms s.calls) s.wiggles (wiggle_process env s).wiggles
        × All (UpToDate (env.monotonic_ms s.calls)) (wiggle_process env s).wiggles
        × (offered (wiggle_process env s).events
            ≡ tick_frames s.can_fd (env.monotonic_ms s.calls) s.wiggles (offered s.events))
  wiggle_process_lem s p t b = elim (wiggles-process s) [
    | inl (q, _) ↦ absurd (cc (p, q))
    | inr (_, e) ↦
        let now = env.monotonic_ms s.calls in
        let writes = wiggle_process-offered env s p t.slots in
        (
          subst IsTable (sym e) (map-IsTable now s.wiggles t),
          subst (AllTicked now s.wiggles) (sym e) (All-Ticked now s.wiggles),
          subst (All (UpToDate now)) (sym e) (All-UpToDate now s.wiggles t.slots b),
          writes,
        )
  ]
