-- ===== src/Safety/Sections.antt =====
-- src/control/state.c, src/control/command.c: the commands that concern the state and the wiggles, in
-- the sections that a lock holds together. Callbacks come one after the other; between two sections of
-- one come steps of the main loop and of the thread of a sequence.
use static_fire.Base.{Bytes, ℕ, true, false, none, some, List, [], ◌∷◌, ◌≡◌, ◌∙◌}
use static_fire.App.{App, AppState, prechilling, Env}
use static_fire.Bridge.{send_text}
use static_fire.Command.Fields.{WiggleFields, arguments, parse_stop, parse_wiggle}
use static_fire.Command.Live.{start_fields}
use static_fire.Firing.{request_abort}
use static_fire.State.{leave_prechilling, state_broadcast}
use static_fire.Wiggle.{wiggle_stop, wiggle_stop_all}
use static_fire.Safety.Beside.{Between, Between-Stays}
use static_fire.Safety.Stays.{Stays-IsSafe}
use static_fire.Safety.Commands.{start_fields-IsSafe, wiggle_stop-IsSafe}
use static_fire.Safety.Handlers.{
  IsSafe-send_text, IsSafe-broadcast_text, leave-IsSafe, with_state-IsSound, stop_all-IsSafe,
  request_abort-IsSafe,
}
use static_fire.Safety.{IsSafe}

module _ (env : Env) where
  -- The loop of WIGGLE, where each start is a section.
  pub data Starting : List Bytes → App → App → Type 0 where
    all_started : {s : App} → Starting [] s s
    not_parsed :
        {s : App} {t : Bytes} {ts : List Bytes} → parse_wiggle t ≡ none → Starting (t ∷ ts) s s
    refused :
        {s : App} {t : Bytes} {ts : List Bytes} {w : WiggleFields}
        → parse_wiggle t ≡ some w
        → (start_fields env s w).1 ≡ false
        → Starting (t ∷ ts) s (start_fields env s w).0
    started :
        {s u v : App} {t : Bytes} {ts : List Bytes} {w : WiggleFields}
        → parse_wiggle t ≡ some w
        → (start_fields env s w).1 ≡ true
        → Between (start_fields env s w).0 u
        → Starting ts u v
        → Starting (t ∷ ts) s v

  -- The loop of WIGGLE_STOP, where each stop is a section.
  pub data Stopping : List Bytes → App → App → Type 0 where
    all_stopped : {s : App} → Stopping [] s s
    not_parsed :
        {s : App} {t : Bytes} {ts : List Bytes} → parse_stop t ≡ none → Stopping (t ∷ ts) s s
    stopped :
        {s u v : App} {t : Bytes} {ts : List Bytes} {id : ℕ}
        → parse_stop t ≡ some id
        → Between (wiggle_stop env s id).0 u
        → Stopping ts u v
        → Stopping (t ∷ ts) s v

  -- A command with its sections: STATE, ABORT, WIGGLE while the state is read as prechilling, and
  -- WIGGLE_STOP, each up to its reply, or nothing but the reply.
  pub data Sectioned (s : App) (client : ℕ) (reply : Bytes) : App → Type 0 where
    refuse : Sectioned s client reply (send_text env s client reply)
    state :
        {t u v : App} (new : AppState)
        → Between (record s { state = new }) t
        → Between (leave_prechilling env new t) u
        → Between (state_broadcast env u) v
        → Sectioned s client reply (send_text env v client reply)
    abort :
        {t u : App}
        → Between (request_abort s) t
        → Between (wiggle_stop_all env t true) u
        → Sectioned s client reply (send_text env u client reply)
    wiggle :
        {t u v : App} (command : Bytes)
        → s.state ≡ prechilling
        → Between s t
        → Starting (arguments command) t u
        → Between u v
        → Sectioned s client reply (send_text env v client reply)
    stop :
        {u : App} (command : Bytes)
        → Stopping (arguments command) s u
        → Sectioned s client reply (send_text env u client reply)

Between-IsSafe : {s t : App} → Between s t → IsSafe s → IsSafe t
Between-IsSafe b x = Stays-IsSafe (Between-Stays b) x

module _ (env : Env) where
  Starting-IsSafe :
      {ts : List Bytes} {s t : App}
      → Starting env ts s t
      → s.state ≡ prechilling
      → IsSafe s
      → IsSafe t
  Starting-IsSafe all_started p x = x
  Starting-IsSafe (not_parsed _) p x = x
  Starting-IsSafe {s = s} (refused {w = w} _ _) p x = (start_fields-IsSafe env s w p x).0
  Starting-IsSafe {s = s} (started {w = w} _ _ b more) p x =
      let (safe, same) = start_fields-IsSafe env s w p x in
      Starting-IsSafe more ((Between-Stays b).same_state ∙ same) (Between-IsSafe b safe)

  Stopping-IsSafe : {ts : List Bytes} {s t : App} → Stopping env ts s t → IsSafe s → IsSafe t
  Stopping-IsSafe all_stopped x = x
  Stopping-IsSafe (not_parsed _) x = x
  Stopping-IsSafe {s = s} (stopped {id = id} _ b more) x =
      Stopping-IsSafe more (Between-IsSafe b (wiggle_stop-IsSafe env s id x))

  -- STATE, ABORT, WIGGLE or WIGGLE_STOP, served section by section, or a refusal, leaves a safe server
  -- safe, whatever steps come between the sections, of the main loop (a tick, a reading of the clock,
  -- the heartbeat, the report of values with its broadcast, a received frame, a signal) and of the
  -- thread of a sequence in any phase: also where the state is HOTFIRE already and the wiggles are
  -- not stopped yet.
  pub Sectioned-IsSafe :
      {client : ℕ} {reply : Bytes} {s t : App}
      → Sectioned env s client reply t
      → IsSafe s
      → IsSafe t
  unfolding state_broadcast
  Sectioned-IsSafe {client = c} {s = s} refuse x = IsSafe-send_text env s c _ x
  Sectioned-IsSafe {client = c} {s = s} (state {t} {u} {v} new a b d) x =
      let set = Between-Stays a in
      let sound = set.sound (with_state-IsSound env s new x.sound) in
      let left = leave-IsSafe env t new set.same_state sound in
      IsSafe-send_text env v c _
        (Between-IsSafe d (IsSafe-broadcast_text env u _ (Between-IsSafe b left)))
  Sectioned-IsSafe {client = c} {s = s} (abort {t} {u} a b) x =
      let asked = Between-IsSafe a (request_abort-IsSafe env s x) in
      IsSafe-send_text env u c _ (Between-IsSafe b (stop_all-IsSafe env t true asked.sound))
  Sectioned-IsSafe {client = c} {s = s} (wiggle {t} {u} {v} command p a more b) x =
      let same = (Between-Stays a).same_state ∙ p in
      IsSafe-send_text env v c _ (Between-IsSafe b (Starting-IsSafe more same (Between-IsSafe a x)))
  Sectioned-IsSafe {client = c} {s = s} (stop {u} command more) x =
      IsSafe-send_text env u c _ (Stopping-IsSafe more x)
