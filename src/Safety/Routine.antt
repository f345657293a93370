-- ===== src/Safety/Routine.antt =====
-- src/main.c: the steps of the main loop. The three parts of `on_timer` are steps of their own, between
-- which callbacks and other threads may run.
use static_fire.Base.{Bytes, ℕ, true, refl, sym, subst, Bool-cases, inl, inr, ltb, length}
use static_fire.App.{App, CanFrame, Env, called}
use static_fire.Bus.{is_special, store_rx, format_dirty}
use static_fire.Bus.Report.{format_dirty-flags}
use static_fire.Runtime.{
  heartbeat_can_id, heartbeat_value, buffer_size, flush_text, flush_can_updates, heartbeat_send,
}
use static_fire.Runtime.Loop.{on_signal}
use static_fire.Safety.{IsSafe, IsSound-Moved, state-Moved}
use static_fire.Safety.Stays.{
  Stays, Stays-trans, Stays-same, Stays-refl, Stays-IsSafe, called-Stays, broadcast_text-Stays,
  send_command-Stays,
}
use static_fire.Wiggle.Moves.{wiggle_process-Moved}
use static_fire.Wiggle.Process.{wiggle_process-IsTable, wiggles-process}
use static_fire.Wiggle.{wiggle_process}

-- The timer: a tick, the reading of the clock, the heartbeat and the report; a frame that is received;
-- and a signal, whose handler interrupts the main loop.
pub data Routine (s : App) : App → Type 0 where
  tick : (env : Env) → Routine s (wiggle_process env s)
  clock : Routine s (called s)
  heartbeat : (env : Env) → Routine s (heartbeat_send env s).0
  report : (env : Env) → Routine s (flush_can_updates env s)
  receive : (f : CanFrame) → Routine s (store_rx s f)
  signalled : Routine s (on_signal s)

-- In HOTFIRE a tick does nothing.
tick-Stays : (env : Env) (s : App) → Stays s (wiggle_process env s)
tick-Stays env s = record {
  sound =
      λ x. IsSound-Moved s _ (wiggle_process-Moved env s) (wiggle_process-IsTable env s x.table) x;
  same_state = state-Moved s _ (wiggle_process-Moved env s);
  quiet = λ x. elim (wiggles-process env s) [
    | inl (_, e) ↦ rw e x.quiet
    | inr (p, _) ↦ λ h. absurd (cc (state-Moved s _ (wiggle_process-Moved env s), p, h))
  ];
}

pub wiggle_process-IsSafe : (env : Env) (s : App) → IsSafe s → IsSafe (wiggle_process env s)
wiggle_process-IsSafe env s x = Stays-IsSafe (tick-Stays env s) x

store_rx-Stays : (s : App) (f : CanFrame) → Stays s (store_rx s f)
unfolding store_rx
store_rx-Stays s f = elim (Bool-cases (is_special f)) [
  | inl h ↦ rw h (Stays-refl s)
  | inr h ↦ rw h (Stays-same s _ refl refl refl refl refl)
]

pub store_rx-IsSafe : (s : App) (f : CanFrame) → IsSafe s → IsSafe (store_rx s f)
store_rx-IsSafe s f x = Stays-IsSafe (store_rx-Stays s f) x

format_dirty-Stays : (s : App) (capacity : ℕ) → Stays s (format_dirty s capacity).1
format_dirty-Stays s capacity =
    let (flags, e) = format_dirty-flags s capacity in
    subst (Stays s) (sym e) (Stays-same s (record s { can_dirty = flags }) refl refl refl refl refl)

module _ (env : Env) where
  flush_text-Stays : (s : App) (r : Bytes × App) → Stays s r.1 → Stays s (flush_text env r)
  unfolding flush_text
  flush_text-Stays s (text, t) x = elim (Bool-cases (ltb 0 (length text))) [
    | inl h ↦ rw h (Stays-trans x (broadcast_text-Stays env t text true))
    | inr h ↦ rw h x
  ]

  flush_can_updates-Stays : (s : App) → Stays s (flush_can_updates env s)
  unfolding flush_can_updates
  flush_can_updates-Stays s =
      flush_text-Stays s (format_dirty s buffer_size) (format_dirty-Stays s buffer_size)

  pub flush_can_updates-IsSafe : (s : App) → IsSafe s → IsSafe (flush_can_updates env s)
  flush_can_updates-IsSafe s x = Stays-IsSafe (flush_can_updates-Stays s) x

  heartbeat_send-Stays : (s : App) → Stays s (heartbeat_send env s).0
  unfolding heartbeat_send
  heartbeat_send-Stays s = send_command-Stays env s heartbeat_can_id heartbeat_value 0

  pub heartbeat_send-IsSafe : (s : App) → IsSafe s → IsSafe (heartbeat_send env s).0
  heartbeat_send-IsSafe s x = Stays-IsSafe (heartbeat_send-Stays s) x

pub Routine-Stays : {s t : App} → Routine s t → Stays s t
Routine-Stays {s} (tick env) = tick-Stays env s
Routine-Stays {s} clock = called-Stays s
Routine-Stays {s} (heartbeat env) = heartbeat_send-Stays env s
Routine-Stays {s} (report env) = flush_can_updates-Stays env s
Routine-Stays {s} (receive f) = store_rx-Stays s f
Routine-Stays {s} signalled = unfold on_signal in Stays-same s _ refl refl refl refl refl
