-- ===== src/Wiggle/Stop.antt =====
-- src/control/wiggle.c: what `wiggle_stop` and `wiggle_stop_all` do to the table of slots.
use static_fire.Base.{
  ℕ, suc, Bool, true, false, Option, none, some, List, [], ◌∷◌, ◌≡◌, refl, ◌∙◌, arith, ap,
  Bool-cases, inl, inr, if◌then◌else◌, ltb, set, length, All,
}
use static_fire.App.{App, Env, zero_slot}
use static_fire.App.View.{View, view}
use static_fire.Bridge.{broadcast_text}
use static_fire.Bridge.Silent.{view-broadcast_text}
use static_fire.Wiggle.Slots.{
  IsSlot, IsTable, Absent, Distinct, Idle, find_slot-First, find_slot-none, Distinct-set_found,
  Absent-set_found, First-test, holds-eq, IsTable-set,
}
use static_fire.Wiggle.{
  Slot, deactivate_slot, stop_in, wiggle_stop, stop_slots, wiggle_stop_all, find_slot,
}

pub wiggles-broadcast_text :
    (env : Env) (s : App) (msg : List ℕ) → (broadcast_text env s msg false).wiggles ≡ s.wiggles
wiggles-broadcast_text env s msg =
    unfold view in ap (λ (v : View). v.wiggles) (view-broadcast_text env s msg false)

module _ (env : Env) where
  deactivate_slot-slot :
      (s : App) (w : Slot) → w.active ≡ true → (deactivate_slot env s w true).0 ≡ zero_slot
  unfolding deactivate_slot
  deactivate_slot-slot s w h = rw h

  stop_in-some :
      (s : App) (i : ℕ) (w : Slot)
      → w.active ≡ true
      → (stop_in env s (some (i, w))).0.wiggles ≡ set s.wiggles i zero_slot
  unfolding stop_in
  stop_in-some s i w h = ap (set s.wiggles i) (deactivate_slot-slot s w h)

  -- Afterwards nobody holds the id; the flag says whether somebody did.
  abbrev pub Stops : App → ℕ → App × Bool → Type 0
  Stops s id r =
      IsTable r.0.wiggles
      × Absent id r.0.wiggles
      × (r.1 ≡ false → (r.0 ≡ s) × Absent id s.wiggles)
      × (r.1 ≡ true
          → (i : ℕ) × (w : Slot) × (find_slot id s.wiggles ≡ some (i, w))
            × (r.0.wiggles ≡ set s.wiggles i zero_slot))

  stop_in-Stops :
      (s : App) (id : ℕ)
      → IsTable s.wiggles
      → (o : Option (ℕ × Slot)) → find_slot id s.wiggles ≡ o
      → Stops s id (stop_in env s o)
  stop_in-Stops s id t none e =
      let ab = find_slot-none id s.wiggles e in
      unfold stop_in in (t, ab, λ _. (refl, ab), λ k. absurd (cc k))
  stop_in-Stops s id t (some (i, w)) e =
      let f = find_slot-First id s.wiggles e in
      let (on, same) = holds-eq id w (First-test f) in
      let put = stop_in-some s i w on in
      (
        rw put (
            IsTable-set s.wiggles i zero_slot t (λ k. absurd (cc k))
              (Distinct-set_found id zero_slot f (λ k. absurd (cc k)) t.distinct)),
        rw put (Absent-set_found id f t.distinct),
        λ k. absurd (unfold stop_in in cc k),
        λ _. (i, w, e, put),
      )

  -- On a well-formed table, `wiggle_stop` keeps it well formed and leaves no slot active for the id. It
  -- returns false, and changes nothing, exactly if there was none; else the slot found is cleared.
  pub wiggle_stop-Stops : (s : App) (id : ℕ) → IsTable s.wiggles → Stops s id (wiggle_stop env s id)
  unfolding wiggle_stop
  wiggle_stop-Stops s id t = stop_in-Stops s id t (find_slot id s.wiggles) refl

  -- Stopping all of them: the slots are as many, and none is active.
  deactivate_slot-idle :
      (s : App) (w : Slot) (exit : Bool) → (deactivate_slot env s w exit).0.active ≡ false
  unfolding deactivate_slot
  deactivate_slot-idle s w exit = ground arith

  stop_slots-Idle :
      (exit : Bool) (ws : List Slot) (s : App) (n : ℕ)
      → Idle (stop_slots env exit ws s n).0 × (length (stop_slots env exit ws s n).0 ≡ length ws)
  unfolding stop_slots
  stop_slots-Idle exit [] s n = (tt, refl)
  stop_slots-Idle exit (w ∷ ws) s n =
      let rest =
        stop_slots-Idle exit ws (deactivate_slot env s w exit).1 (if w.active then suc n else n) in
      ((deactivate_slot-idle s w exit, rest.0), ap suc rest.1)

  Idle-IsTable : (ws : List Slot) → length ws ≡ 16 → Idle ws → IsTable ws
  Idle-IsTable ws n h = record {
    sixteen = n;
    slots = idle_slots ws h;
    distinct = idle_distinct ws h;
  }
    where
      idle_slots : (ws : List Slot) → Idle ws → All IsSlot ws
      idle_slots [] h = tt
      idle_slots (w ∷ ws) h = (λ k. absurd (cc (h.0, k)), idle_slots ws h.1)

      idle_distinct : (ws : List Slot) → Idle ws → Distinct ws
      idle_distinct [] h = tt
      idle_distinct (w ∷ ws) h = (λ k. absurd (cc (h.0, k)), idle_distinct ws h.1)

  stop_all_wiggles :
      (s : App) (exit : Bool)
      → (wiggle_stop_all env s exit).wiggles ≡ (stop_slots env exit s.wiggles s 0).0
  unfolding wiggle_stop_all
  stop_all_wiggles s exit = elim (Bool-cases (ltb 0 (stop_slots env exit s.wiggles s 0).2)) [
    | inl h ↦ rw h (wiggles-broadcast_text env _ _)
    | inr h ↦ rw h
  ]

  -- After `wiggle_stop_all` no slot is active, whatever the table was.
  pub wiggle_stop_all-Idle :
      (s : App) (exit : Bool)
      → Idle (wiggle_stop_all env s exit).wiggles
        × (length (wiggle_stop_all env s exit).wiggles ≡ length s.wiggles)
  wiggle_stop_all-Idle s exit = rw (stop_all_wiggles s exit) (stop_slots-Idle exit s.wiggles s 0)

  pub wiggle_stop_all-IsTable :
      (s : App) (exit : Bool) → IsTable s.wiggles → IsTable (wiggle_stop_all env s exit).wiggles
  wiggle_stop_all-IsTable s exit t =
      let (idle, n) = wiggle_stop_all-Idle s exit in Idle-IsTable _ (n ∙ t.sixteen) idle
