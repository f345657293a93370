-- ===== src/Firing/Unaborted.antt =====
-- src/control/firing_sequence.c: blocks without a wait, which no abort keeps back.
use static_fire.Base.{ℕ, suc, ◌≤◌, Bool, true, some, List, [], ◌∷◌, ◌≡◌, refl, ◌∙◌, ap, arith, All}
use static_fire.App.{App, FiringBlock, Env, called, frames}
use static_fire.Bus.{send_command}
use static_fire.Firing.Order.{frame_of, sent_onto}
use static_fire.Firing.Waits.{no_wait}
use static_fire.Firing.Worker.{completed, try_send, send_block, run_blocks}

module _ (env : Env) where
  -- On an open socket that takes each frame, the first attempt puts the frame of the block on the bus.
  send_block_lem :
      (b : FiringBlock) (s : App) {fd : ℕ}
      → s.can_fd ≡ some fd
      → ((n : ℕ) → env.write_ok n ≡ true)
      → b.id ≤ 0x7FF
      → ((send_block env b s).0 ≡ true)
        × (frames (send_block env b s).1.events ≡ frame_of b ∷ frames s.events)
        × ((send_block env b s).1.can_fd ≡ s.can_fd)
  unfolding send_block try_send send_command
  send_block_lem b s f o le = ground (arith, f, o s.calls)

  -- A run of blocks with no delay before any of them, on a CAN socket that is open and takes each
  -- frame, with 11-bit ids and a clock that does not go back, completes, whatever the flags of the
  -- abort and of the stop are at each reading: it puts the frames of all blocks on the bus, in order
  -- and each once, and nothing else.
  pub run_blocks-completed :
      (interrupted : ℕ → Bool) (fuel delay_ms : ℕ) (bs : List FiringBlock) (s : App) {fd : ℕ}
      → delay_ms ≡ 0
      → All (λ b. (b.wait_ms ≡ 0) × (b.id ≤ 0x7FF)) bs
      → ((n : ℕ) → env.monotonic_ms n ≤ env.monotonic_ms (suc n))
      → ((n : ℕ) → env.write_ok n ≡ true)
      → s.can_fd ≡ some fd
      → (t : App) × (run_blocks env interrupted (suc fuel) delay_ms bs s ≡ some (completed, t))
        × (frames t.events ≡ sent_onto bs (frames s.events))
  unfolding run_blocks
  run_blocks-completed interrupted fuel delay_ms [] s z a h o f = (s, refl, refl)
  run_blocks-completed interrupted fuel delay_ms (b ∷ bs) s z a h o f =
      let u = called (called s) in
      let w = no_wait env interrupted fuel delay_ms s z (h s.calls) in
      let (sent, bus, kept) = send_block_lem b u f o a.0.1 in
      let (t, e, all) =
        run_blocks-completed interrupted fuel b.wait_ms bs (send_block env b u).1 a.0.0 a.1 h o
          (kept ∙ f) in
      (t, rw (w, run_blocks) (rw sent e), all ∙ ap (sent_onto bs) bus)
