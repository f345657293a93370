-- ===== src/Safety/Reach.antt =====
-- The server as a transition system. A step is what one callback, one tick or one action of the
-- thread does, taken as a whole; the steps come in any order, and what is outside may answer
-- differently at each.
use static_fire.Base.{
  Bytes, ℕ, zero, ap, suc, false, [], ◌∷◌, ◌≡◌, refl, sym, ◌∙◌, arith, Bool-cases, inl, inr,
}
use static_fire.Text.{lit, c_string}
use static_fire.App.{App, AppConfig, FiringBlock, Env, init, frames, threads, called}
use static_fire.Bridge.{on_connect, on_disconnect, send_current_state}
use static_fire.Bus.{send_command}
use static_fire.Bus.Frames.{send_command-Wrote}
use static_fire.Firing.Worker.{send_block, try_send, send_attempts}
use static_fire.Firing.{finish_sequence}
use static_fire.Message.{FrameType, text_frame, ping_frame, other_frame, on_message, on_text}
use static_fire.Safety.{IsSafe, IsSafe-Wrote}
use static_fire.Safety.Commands.{called-IsSafe, emit-IsSafe}
use static_fire.Safety.Dispatch.{command_handle_text-IsSafe}
use static_fire.Safety.Handlers.{IsSafe-send_text}
use static_fire.Safety.Stays.{Stays-IsSafe}
use static_fire.Safety.Routine.{Routine, Routine-Stays}

-- What the callbacks and the main loop do.
pub data Serve (s : App) : App → Type 0 where
  message :
      (env : Env) (c : ℕ) (kind : FrameType) (payload : Bytes)
      → Serve s (on_message env s c kind payload)
  connect : (env : Env) (c : ℕ) → Serve s (on_connect env s c)
  disconnect : (c : ℕ) → Serve s (on_disconnect s c)
  routine : {t : App} → Routine s t → Serve s t

-- With the sending of a block, and the end of a thread.
pub data Step (s : App) : App → Type 0 where
  serve : {t : App} → Serve s t → Step s t
  work : (env : Env) (b : FiringBlock) → Step s (send_block env b s).1
  finish : Step s (finish_sequence s)

-- From `app_context_init`, with the descriptors that `init_runtime` and `ws_bridge_start` set.
pub data Reach (cfg : AppConfig) : App → Type 0 where
  start :
      (s : App)
      → s.wiggles ≡ (init cfg).wiggles
      → s.state ≡ (init cfg).state
      → s.valve_profile ≡ (init cfg).valve_profile
      → s.events ≡ []
      → Reach cfg s
  step : {s t : App} → Reach cfg s → Step s t → Reach cfg t

-- What is safe depends on these parts of the state only.
pub IsSafe-same :
    (s t : App)
    → t.wiggles ≡ s.wiggles
    → t.state ≡ s.state
    → t.valve_profile ≡ s.valve_profile
    → frames t.events ≡ frames s.events
    → threads t.events ≡ threads s.events
    → IsSafe s
    → IsSafe t
IsSafe-same s t w st p f th x = record {
  sound = record {
    table = rw w x.sound.table;
    profile = rw p x.sound.profile;
    bus = rw f x.sound.bus;
    workers = rw th x.sound.workers;
  };
  quiet = λ h. rw w (x.quiet (sym st ∙ h));
}

pub init-IsSafe : (cfg : AppConfig) → IsSafe (init cfg)
unfolding init
init-IsSafe cfg = record {
  sound = record {
    table = record { sixteen = refl; slots = ground arith; distinct = ground arith };
    profile = record {
      main_id = omega arith;
      vent_id = omega arith;
      main_angle = omega arith;
      vent_angle = omega arith;
    };
    bus = tt;
    workers = tt;
  };
  quiet = λ h. cc h;
}

on_text-IsSafe :
    (env : Env) (s : App) (c : ℕ) (payload : Bytes) → IsSafe s → IsSafe (on_text env s c payload)
unfolding on_text
on_text-IsSafe env s c payload x =
    let y = called-IsSafe s x in
    elim (Bool-cases (env.malloc_ok s.calls)) [
      | inr h ↦ rw h (IsSafe-send_text env (called s) c _ y)
      | inl h ↦
          rw h (command_handle_text-IsSafe env _ c (c_string payload) (emit-IsSafe (called s) y))
    ]

send_current_state-IsSafe :
    (env : Env) (s : App) (c : ℕ) → IsSafe s → IsSafe (send_current_state env s c)
unfolding send_current_state
send_current_state-IsSafe env s c x = IsSafe-send_text env s c _ x

on_connect-IsSafe : (env : Env) (s : App) (c : ℕ) → IsSafe s → IsSafe (on_connect env s c)
unfolding on_connect
on_connect-IsSafe env s c x = elim (Bool-cases (env.malloc_ok s.calls)) [
  | inr h ↦ rw h (called-IsSafe s x)
  | inl h ↦
      let linked = record s {
        clients = record { client = c; write_only = false } ∷ s.clients;
        calls = suc s.calls;
      } in
      rw h (
        send_current_state-IsSafe env _ c (
          IsSafe-send_text env linked c (lit "Hello from server")
            (IsSafe-same s linked refl refl refl refl refl x)))
]

try_send-IsSafe :
    (env : Env) (n : ℕ) (b : FiringBlock) (s : App) → IsSafe s → IsSafe (try_send env n b s).1
unfolding try_send
try_send-IsSafe env zero b s x = x
try_send-IsSafe env (suc n) b s x =
    let y = IsSafe-Wrote s _ (send_command-Wrote env s b.id b.value b.duration_ms) x in
    elim (Bool-cases (send_command env s b.id b.value b.duration_ms).1) [
      | inl h ↦ rw h (emit-IsSafe _ y)
      | inr h ↦ rw h (try_send-IsSafe env n b _ y)
    ]

pub Serve-IsSafe : {s t : App} → Serve s t → IsSafe s → IsSafe t
Serve-IsSafe {s} (message env c text_frame payload) x =
    unfold on_message in on_text-IsSafe env s c payload x
Serve-IsSafe {s} (message env c ping_frame payload) x =
    unfold on_message in IsSafe-same s _ refl refl refl refl refl x
Serve-IsSafe {s} (message env c other_frame payload) x = unfold on_message in x
Serve-IsSafe {s} (connect env c) x = on_connect-IsSafe env s c x
Serve-IsSafe {s} (disconnect c) x =
    unfold on_disconnect in IsSafe-same s _ refl refl refl refl refl x
Serve-IsSafe {s} (routine r) x = Stays-IsSafe (Routine-Stays r) x

Step-IsSafe : {s t : App} → Step s t → IsSafe s → IsSafe t
Step-IsSafe (serve st) x = Serve-IsSafe st x
Step-IsSafe {s} (work env b) x = unfold send_block in try_send-IsSafe env send_attempts b s x
Step-IsSafe {s} finish x = unfold finish_sequence in IsSafe-same s _ refl refl refl refl refl x

-- Every state that the server can reach from its initial one, by frames and texts of clients,
-- connections, the steps of the main loop and blocks that a thread sends, in any order and
-- whatever the outside returns, is safe: the table of wiggles is well formed, the valve profile is in
-- range, all frames on the bus are classic ones, each thread was given 1 to 24 valid blocks, and in
-- HOTFIRE no wiggle is active.
pub Reach-IsSafe : (cfg : AppConfig) {s : App} → Reach cfg s → IsSafe s
unfolding init
Reach-IsSafe cfg (start s w st p e) =
    IsSafe-same (init cfg) s w st p (ap frames e) (ap threads e) (init-IsSafe cfg)
Reach-IsSafe cfg (step r st) = Step-IsSafe st (Reach-IsSafe cfg r)
