-- ===== src/Wiggle.antt =====
-- src/control/wiggle.c: up to sixteen valves that are moved to and fro while the system prechills.
-- A pointer to a slot is the slot's index and contents; what `send_value` and `deactivate_slot`
-- write through it is the slot that they return. The operations hold `state_lock` throughout.
pub mod Slots
pub mod Moves
pub mod Start
pub mod Stop
pub mod Ticked
pub mod Offered
pub mod Process
pub mod Exits
pub mod Lookup
pub mod Refines
use static_fire.Base.{
  Bytes, ℕ, zero, suc, ◌+◌, ◌%◌, ◌^◌, Bool, true, false, not, ◌&&◌, ◌||◌, Option, none, some, List,
  [], ◌∷◌, ◌++◌, ltb, leb, ◌==◌, if◌then◌else◌, set,
}
use static_fire.Text.Print.{decimal, truncated}
use static_fire.Text.{lit}
use static_fire.App.{
  AppState, prechilling, hotfire, App, WiggleCommand, Env, logged, emit, called, zero_slot,
}
use static_fire.Bridge.{broadcast_text}
use static_fire.Bus.{send_command, entry_text}

abbrev pub Slot : Type 0
Slot = WiggleCommand

-- The slot is active for this id.
abbrev pub holds : ℕ → Slot → Bool
holds id w = w.active && w.id == id

abbrev next_index : Option (ℕ × Slot) → Option (ℕ × Slot)
next_index none = none
next_index (some (i, w)) = some (suc i, w)

unfoldable pub find_slot : ℕ → List Slot → Option (ℕ × Slot)
find_slot id [] = none
find_slot id (w ∷ ws) = if holds id w then some (0, w) else next_index (find_slot id ws)

unfoldable pub alloc_slot : List Slot → Option (ℕ × Slot)
alloc_slot [] = none
alloc_slot (w ∷ ws) = if not w.active then some (0, w) else next_index (alloc_slot ws)

-- `slot = find_slot (..); if (!slot) slot = alloc_slot (..);`
unfoldable pub or_alloc : Option (ℕ × Slot) → List Slot → Option (ℕ × Slot)
or_alloc none ws = alloc_slot ws
or_alloc (some p) ws = some p

-- The slot as `wiggle_start` fills it in, before the first value is sent.
unfoldable pub filled : Slot → ℕ → ℕ → ℕ → ℕ → ℕ → ℕ → ℕ → Slot
filled w now id start_value end_value exit_value period_ms total_duration_ms = record w {
  id = id;
  start_value = start_value;
  end_value = end_value;
  exit_value = exit_value;
  period_ms = period_ms;
  total_duration_ms = total_duration_ms;
  active = true;
  stop_time_ms = if total_duration_ms == 0 then 0 else (now + total_duration_ms) % 2 ^ 64;
}

-- `slot->current_value == slot->start_value ? slot->end_value : slot->start_value`
unfoldable pub next_value : Slot → ℕ
next_value w = if w.current_value == w.start_value then w.end_value else w.start_value

unfoldable pub is_over : ℕ → Slot → Bool
is_over now w = ltb 0 w.total_duration_ms && ltb 0 w.stop_time_ms && leb w.stop_time_ms now

module _ (env : Env) where
  unfoldable pub log_sent : ℕ → ℕ → App × Bool → App
  log_sent id value (s, true) = emit (logged (lit "CAN_TX") (entry_text id value)) s
  log_sent id value (s, false) = s

  unfoldable pub send_value : App → Slot → ℕ → Slot × App
  unfolding log_sent
  send_value s w value =
      (record w { current_value = value }, log_sent w.id value (send_command env s w.id value 0))

  unfoldable pub deactivate_slot : App → Slot → Bool → Slot × App
  unfolding send_value
  deactivate_slot s w send_exit_value =
      if not w.active
      then (w, s)
      else (zero_slot, if send_exit_value then (send_value s w w.exit_value).1 else s)

  -- What `wiggle_start` does with the slot that it got.
  unfoldable pub start_in : App → Option (ℕ × Slot) → ℕ → ℕ → ℕ → ℕ → ℕ → ℕ → App × Bool
  unfolding filled send_value
  start_in s none id start_value end_value exit_value period_ms total_duration_ms = (s, false)
  start_in s (some (i, w)) id start_value end_value exit_value period_ms total_duration_ms =
      let now = env.monotonic_ms s.calls in
      let filled_in =
        filled w now id start_value end_value exit_value period_ms total_duration_ms in
      let (sending, s') = send_value (called s) filled_in start_value in
      let done = record sending { next_toggle_ms = (now + period_ms) % 2 ^ 64 } in
      (record s' { wiggles = set s.wiggles i done }, true)

  -- The flag says that 0 is returned.
  unfoldable pub wiggle_start : App → ℕ → ℕ → ℕ → ℕ → ℕ → ℕ → App × Bool
  unfolding start_in or_alloc
  wiggle_start s id start_value end_value exit_value period_ms total_duration_ms =
      if period_ms == 0 || ltb 0x7FF id
      then (s, false)
      else start_in s (or_alloc (find_slot id s.wiggles) s.wiggles) id start_value end_value
          exit_value period_ms total_duration_ms

  unfoldable pub stop_in : App → Option (ℕ × Slot) → App × Bool
  stop_in s none = (s, false)
  stop_in s (some (i, w)) =
      let (w', s') = deactivate_slot s w true in (record s' { wiggles = set s.wiggles i w' }, true)

  unfoldable pub wiggle_stop : App → ℕ → App × Bool
  unfolding stop_in deactivate_slot
  wiggle_stop s id = stop_in s (find_slot id s.wiggles)

  -- The loop of `wiggle_stop_all`: the slots after it, the state, and the count of those stopped.
  unfoldable pub stop_slots : Bool → List Slot → App → ℕ → List Slot × App × ℕ
  stop_slots send_exit_value [] s stopped = ([], s, stopped)
  stop_slots send_exit_value (w ∷ ws) s stopped =
      let (w', s') = deactivate_slot s w send_exit_value in
      let rest = stop_slots send_exit_value ws s' (if w.active then suc stopped else stopped) in
      (w' ∷ rest.0, rest.1, rest.2)

  unfoldable pub wiggle_stop_all : App → Bool → App
  unfolding stop_slots deactivate_slot
  wiggle_stop_all s send_exit_value =
      let (ws, s', stopped) = stop_slots send_exit_value s.wiggles s 0 in
      let after = record s' { wiggles = ws } in
      let msg = lit "Stopped " ++ (decimal stopped ++ lit " active wiggle(s)") in
      if ltb 0 stopped then broadcast_text env after (truncated 96 msg) false else after

  -- One round of the loop of `wiggle_process`.
  unfoldable pub process_slot : ℕ → App → Slot → Slot × App
  unfolding deactivate_slot next_value is_over
  process_slot now s w =
      let (sending, s') = send_value s w (next_value w) in
      if not w.active
      then (w, s)
      else if is_over now w
      then deactivate_slot s w true
      else if ltb now w.next_toggle_ms
      then (w, s)
      else (record sending { next_toggle_ms = (now + w.period_ms) % 2 ^ 64 }, s')

  unfoldable pub process_slots : ℕ → List Slot → App → List Slot × App
  process_slots now [] s = ([], s)
  process_slots now (w ∷ ws) s =
      let (w', s') = process_slot now s w in
      let rest = process_slots now ws s' in (w' ∷ rest.0, rest.1)

  unfoldable pub process_in : AppState → App → App
  process_in hotfire s = s
  process_in prechilling s =
      let now = env.monotonic_ms s.calls in
      let (ws, s') = process_slots now s.wiggles (called s) in record s' { wiggles = ws }

  unfoldable pub wiggle_process : App → App
  unfolding process_in process_slots process_slot
  wiggle_process s = process_in s.state s
