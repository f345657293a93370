-- ===== src/Safety/Handlers.antt =====
-- src/control/command.c: the safety of the server under the steps that the handlers take.
use static_fire.Base.{
  Bytes, ℕ, suc, Bool, true, false, ◌||◌, Option, none, some, ◌∷◌, ◌≡◌, refl, arith, Bool-cases,
  inl, inr, ◌==◌,
}
use static_fire.App.View.{Wrote-none}
use static_fire.App.{App, AppState, prechilling, hotfire, ValveProfile, WorkerArgs, Env, spawned}
use static_fire.Bridge.{send_text, broadcast_text}
use static_fire.Bridge.Silent.{view-send_text, view-broadcast_text}
use static_fire.Wiggle.Moves.{wiggle_stop_all-Moved}
use static_fire.Wiggle.Stop.{wiggle_stop_all-Idle, wiggle_stop_all-IsTable}
use static_fire.Wiggle.{wiggle_stop_all}
use static_fire.State.{state_set, leave_prechilling, state_broadcast}
use static_fire.Firing.{
  firing_sequence_start, start_drown, drown_config, request_abort, worker_args, no_blocks,
}
use static_fire.Command.Live.{set_field, set_profile, set_valve, state_command}
use static_fire.Safety.{IsProfile, IsWorker, IsSound, IsSafe, IsSound-Moved, IsSafe-Wrote}

module _ (env : Env) where
  -- Sending a text behind anything.
  pub IsSafe-send_text : (s : App) (c : ℕ) (msg : Bytes) → IsSafe s → IsSafe (send_text env s c msg)
  IsSafe-send_text s c msg x = IsSafe-Wrote s _ (Wrote-none (view-send_text env s c msg)) x

  pub IsSafe-broadcast_text :
      (s : App) (msg : Bytes) → IsSafe s → IsSafe (broadcast_text env s msg false)
  IsSafe-broadcast_text s msg x =
      IsSafe-Wrote s _ (Wrote-none (view-broadcast_text env s msg false)) x

  pub stop_all-IsSafe : (s : App) (exit : Bool) → IsSound s → IsSafe (wiggle_stop_all env s exit)
  stop_all-IsSafe s exit x = record {
    sound =
        IsSound-Moved s _ (wiggle_stop_all-Moved env s exit)
          (wiggle_stop_all-IsTable env s exit x.table) x;
    quiet = λ _. (wiggle_stop_all-Idle env s exit).0;
  }

  pub with_state-IsSound : (s : App) (st : AppState) → IsSound s → IsSound (record s { state = st })
  with_state-IsSound s st x = record {
    table = x.table;
    profile = x.profile;
    bus = x.bus;
    workers = x.workers;
  }

  pub leave-IsSafe :
      (s : App) (st : AppState) → s.state ≡ st → IsSound s → IsSafe (leave_prechilling env st s)
  unfolding leave_prechilling
  leave-IsSafe s prechilling e x = record { sound = x; quiet = λ h. absurd (cc (e, h)) }
  leave-IsSafe s hotfire e x = stop_all-IsSafe s true x

  pub state_set-IsSafe : (s : App) (st : AppState) → IsSafe s → IsSafe (state_set env s st).0
  unfolding state_set state_broadcast
  state_set-IsSafe s st x =
      IsSafe-broadcast_text _ _
        (leave-IsSafe (record s { state = st }) st refl (with_state-IsSound s st x.sound))

  pub state_command-IsSafe :
      (s : App) (c : ℕ) (st : AppState) (label : Bytes)
      → IsSafe s
      → IsSafe (state_command env s c st label)
  unfolding state_command
  state_command-IsSafe s c st label x = IsSafe-send_text _ c _ (state_set-IsSafe s st x)

  -- SET_VALVE writes a field only with a value in its range.
  set_field-IsProfile :
      (p : ValveProfile) (name : Bytes) (value : ℕ) {q : ValveProfile}
      → IsProfile p
      → set_field p name value ≡ some q
      → IsProfile q
  unfolding set_field
  set_field-IsProfile p name value x e = ground arith

  profile-IsSafe :
      (s : App) (p : ValveProfile)
      → IsSafe s
      → IsProfile p
      → IsSafe (record s { valve_profile = p })
  profile-IsSafe s p x y = record {
    sound = record {
      table = x.sound.table;
      profile = y;
      bus = x.sound.bus;
      workers = x.sound.workers;
    };
    quiet = x.quiet;
  }

  set_profile-IsSafe :
      (s : App) (c : ℕ) (o : Option ValveProfile)
      → ((p : ValveProfile) → o ≡ some p → IsProfile p)
      → IsSafe s
      → IsSafe (set_profile env s c o)
  unfolding set_profile
  set_profile-IsSafe s c none h x = IsSafe-send_text s c _ x
  set_profile-IsSafe s c (some p) h x = IsSafe-send_text _ c _ (profile-IsSafe s p x (h p refl))

  pub set_valve-IsSafe :
      (s : App) (c : ℕ) (o : Option (Bytes × ℕ)) → IsSafe s → IsSafe (set_valve env s c o)
  unfolding set_valve
  set_valve-IsSafe s c none x = IsSafe-send_text s c _ x
  set_valve-IsSafe s c (some (name, value)) x =
      set_profile-IsSafe s c (set_field s.valve_profile name value)
        (λ p e. set_field-IsProfile s.valve_profile name value x.sound.profile e) x

  -- The flags of the sequence and the count of calls are not part of what is safe.
  flags-IsSafe :
      (s : App) (a b : Bool) (n : ℕ)
      → IsSafe s
      → IsSafe (record s { sequence_active = a; sequence_abort = b; calls = n })
  flags-IsSafe s a b n x = record {
    sound = record {
      table = x.sound.table;
      profile = x.sound.profile;
      bus = x.sound.bus;
      workers = x.sound.workers;
    };
    quiet = x.quiet;
  }

  spawn-IsSafe :
      (s : App) (a b : Bool) (n : ℕ) (args : WorkerArgs)
      → IsWorker args
      → IsSafe s
      → IsSafe (record s {
        sequence_active = a;
        sequence_abort = b;
        calls = n;
        events = spawned args ∷ s.events;
      })
  spawn-IsSafe s a b n args w x = record {
    sound = record {
      table = x.sound.table;
      profile = x.sound.profile;
      bus = x.sound.bus;
      workers = (w, x.sound.workers);
    };
    quiet = x.quiet;
  }

  pub request_abort-IsSafe : (s : App) → IsSafe s → IsSafe (request_abort s)
  unfolding request_abort
  request_abort-IsSafe s x = flags-IsSafe s s.sequence_active true s.calls x

  pub firing_sequence_start-IsSafe :
      (s : App) (args : WorkerArgs)
      → (no_blocks args.config.blocks ≡ false → IsWorker args)
      → IsSafe s
      → IsSafe (firing_sequence_start env s args).0
  unfolding firing_sequence_start
  firing_sequence_start-IsSafe s args w x =
      elim (Bool-cases (no_blocks args.config.blocks || s.sequence_active)) [
        | inl h ↦ rw h x
        | inr h ↦ rw h (elim (Bool-cases (env.malloc_ok s.calls)) [
          | inr k ↦ rw k (flags-IsSafe s false false (suc s.calls) x)
          | inl k ↦ rw k (elim (Bool-cases (env.thread_ok (suc s.calls))) [
            | inr j ↦ rw j (flags-IsSafe s false false (suc (suc s.calls)) x)
            | inl j ↦ rw j (spawn-IsSafe s true false (suc (suc s.calls)) args (w (ground arith)) x)
          ])
        ])
      ]

  drown-IsWorker :
      (s : App) (c : ℕ) (a b d : Bytes)
      → IsProfile s.valve_profile
      → (s.valve_profile.lox_main_valve_id == 0 || s.valve_profile.lox_vent_valve_id == 0) ≡ false
      → IsWorker (worker_args c (drown_config s) a b d)
  unfolding worker_args drown_config
  drown-IsWorker s c a b d p h = ground arith

  pub start_drown-IsSafe : (s : App) (c : ℕ) → IsSafe s → IsSafe (start_drown env s c).0
  unfolding start_drown
  start_drown-IsSafe s c x =
      elim (Bool-cases
        (s.valve_profile.lox_main_valve_id == 0 || s.valve_profile.lox_vent_valve_id == 0)) [
          | inl h ↦ rw h x
          | inr h ↦
              rw h (
                firing_sequence_start-IsSafe s _ (λ _. drown-IsWorker s c _ _ _ x.sound.profile h)
                  x)
        ]
