-- ===== src/Firing/Start.antt =====
-- src/control/firing_sequence.c: who may start the thread of a sequence.
use static_fire.Base.{Bool, true, false, ◌∷◌, ◌≡◌, arith}
use static_fire.App.{App, WorkerArgs, Env, frames, threads}
use static_fire.Firing.{no_blocks, finish_sequence, firing_sequence_start}

-- A start that is refused while a sequence runs leaves the flags; one that fails clears them; one
-- that succeeds found none running, and creates one thread.
abbrev pub Claims : App → WorkerArgs → App × Bool → Type 0
Claims s args r =
    (r.1 ≡ true
      → (s.sequence_active ≡ false)
        × (no_blocks args.config.blocks ≡ false)
        × (r.0.sequence_active ≡ true)
        × (r.0.sequence_abort ≡ false)
        × (threads r.0.events ≡ args ∷ threads s.events))
    × (r.1 ≡ false → threads r.0.events ≡ threads s.events)
    × (s.sequence_active ≡ true → (r.0 ≡ s) × (r.1 ≡ false))
    × (s.sequence_active ≡ false → r.1 ≡ false → r.0.sequence_active ≡ false)
    × (frames r.0.events ≡ frames s.events)

-- On every branch: a thread is created exactly if the call succeeds, which it does only with blocks
-- and with no sequence active, and which sets the active flag and clears the abort flag. While a
-- sequence is active nothing changes; a start that fails otherwise leaves none active. Nothing goes
-- out on the bus.
pub firing_sequence_start-Claims :
    (env : Env) (s : App) (args : WorkerArgs) → Claims s args (firing_sequence_start env s args)
unfolding firing_sequence_start finish_sequence
firing_sequence_start-Claims env s args = ground arith
