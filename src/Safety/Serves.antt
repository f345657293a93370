-- ===== src/Safety/Serves.antt =====
-- What the callbacks and the main loop serve, and the threads and flags of a sequence.
use static_fire.Base.{
  true, ltb, length, subst, sym, Bytes, ℕ, suc, false, ◌∷◌, ◌≡◌, refl, ◌∙◌, Bool-cases, inl, inr,
}
use static_fire.Text.{lit, c_string}
use static_fire.App.{App, CanFrame, Env, threads, called}
use static_fire.Bridge.{on_connect, on_disconnect, send_current_state}
use static_fire.Bus.{is_special, store_rx, format_dirty}
use static_fire.Message.{text_frame, ping_frame, other_frame, on_message, on_text}
use static_fire.Bus.Report.{format_dirty-flags}
use static_fire.Safety.Claims.{
  Kept, Claimed, Kept-refl, Kept-trans, Kept-Moved, Kept-Wrote, Kept-view, Kept-Claimed,
  called-Kept, logged-Kept,
}
use static_fire.Safety.Claims.Steps.{send_text-Kept}
use static_fire.Safety.Starts.{command_handle_text-Claimed}
use static_fire.Safety.Reach.{Serve, message, connect, disconnect, routine}
use static_fire.Safety.Routine.{Routine, tick, clock, heartbeat, report, receive, signalled}
use static_fire.Runtime.{
  heartbeat_can_id, heartbeat_value, buffer_size, flush_text, flush_can_updates, heartbeat_send,
}
use static_fire.Runtime.Loop.{on_signal}
use static_fire.Bus.Frames.{send_command-Wrote}
use static_fire.Bridge.Silent.{view-broadcast_text}
use static_fire.Wiggle.Moves.{wiggle_process-Moved}

on_text-Claimed :
    (env : Env) (s : App) (c : ℕ) (payload : Bytes) → Claimed s (on_text env s c payload)
unfolding on_text
on_text-Claimed env s c payload = elim (Bool-cases (env.malloc_ok s.calls)) [
  | inr h ↦ rw h (inl (Kept-trans (called-Kept s) (send_text-Kept env (called s) c _)))
  | inl h ↦ rw h (
      Kept-Claimed (Kept-trans (called-Kept s) (logged-Kept (called s) _ _))
        (command_handle_text-Claimed env _ c (c_string payload)))
]

-- The parts that matter here are not changed at all.
pub same-Kept :
    (s t : App)
    → threads t.events ≡ threads s.events
    → t.sequence_active ≡ s.sequence_active
    → t.sequence_abort ≡ s.sequence_abort
    → Kept s t
same-Kept s t a b c = record { same_threads = a; same_active = b; abort_kept = λ _ h. c ∙ h }

on_connect-Kept : (env : Env) (s : App) (c : ℕ) → Kept s (on_connect env s c)
unfolding on_connect send_current_state
on_connect-Kept env s c = elim (Bool-cases (env.malloc_ok s.calls)) [
  | inr h ↦ rw h (called-Kept s)
  | inl h ↦
      let linked = record s {
        clients = record { client = c; write_only = false } ∷ s.clients;
        calls = suc s.calls;
      } in
      rw h (
        Kept-trans (same-Kept s linked refl refl refl) (
          Kept-trans (send_text-Kept env linked c (lit "Hello from server"))
            (send_text-Kept env _ c _)))
]

format_dirty-Kept : (s : App) (capacity : ℕ) → Kept s (format_dirty s capacity).1
format_dirty-Kept s capacity =
    let (flags, e) = format_dirty-flags s capacity in
    subst (Kept s) (sym e) (same-Kept s (record s { can_dirty = flags }) refl refl refl)

store_rx-Kept : (s : App) (f : CanFrame) → Kept s (store_rx s f)
unfolding store_rx
store_rx-Kept s f = elim (Bool-cases (is_special f)) [
  | inl h ↦ rw h (Kept-refl s)
  | inr h ↦ rw h (same-Kept s _ refl refl refl)
]

flush_text-Kept : (env : Env) (s : App) (r : Bytes × App) → Kept s r.1 → Kept s (flush_text env r)
unfolding flush_text
flush_text-Kept env s (text, t) x = elim (Bool-cases (ltb 0 (length text))) [
  | inl h ↦ rw h (Kept-trans x (Kept-view t _ (view-broadcast_text env t text true)))
  | inr h ↦ rw h x
]

pub Routine-Kept : {s t : App} → Routine s t → Kept s t
Routine-Kept {s} (tick env) = Kept-Moved s _ (wiggle_process-Moved env s)
Routine-Kept {s} clock = called-Kept s
Routine-Kept {s} (heartbeat env) =
    unfold heartbeat_send in
    Kept-Wrote s _ (send_command-Wrote env s heartbeat_can_id heartbeat_value 0)
Routine-Kept {s} (report env) =
    unfold flush_can_updates in
    flush_text-Kept env s (format_dirty s buffer_size) (format_dirty-Kept s buffer_size)
Routine-Kept {s} (receive f) = store_rx-Kept s f
Routine-Kept {s} signalled = unfold on_signal in same-Kept s _ refl refl refl

-- Whatever is served creates at most one thread.
pub Serve-Claimed : {s t : App} → Serve s t → Claimed s t
Serve-Claimed {s} (message env c text_frame payload) =
    unfold on_message in on_text-Claimed env s c payload
Serve-Claimed {s} (message env c ping_frame payload) =
    unfold on_message in inl (same-Kept s _ refl refl refl)
Serve-Claimed {s} (message env c other_frame payload) = unfold on_message in inl (Kept-refl s)
Serve-Claimed {s} (connect env c) = inl (on_connect-Kept env s c)
Serve-Claimed {s} (disconnect c) = unfold on_disconnect in inl (same-Kept s _ refl refl refl)
Serve-Claimed {s} (routine r) = inl (Routine-Kept r)
