-- ===== src/Safety/Whole.antt =====
-- src/control/command.c: a handler as one step is its sections with nothing in between.
use static_fire.Base.{
  Bytes, ℕ, suc, Bool, true, false, not, Option, none, some, List, [], ◌∷◌, ◌≡◌, refl, Bool-cases,
  Option-cases, inl, inr, if◌then◌else◌, drop,
}
use static_fire.Text.{lit, equal, starts_with}
use static_fire.App.{App, AppState, prechilling, hotfire, Env}
use static_fire.Command.Fields.{arguments, is_wiggle, parse_stop, parse_wiggle}
use static_fire.Command.Live.{
  state_command, start_all, start_fields, stop_all_ids, wiggle_in, handle_abort,
  handle_state_command, handle_wiggle, handle_wiggle_stop,
}
use static_fire.Safety.Sections.{
  Sectioned, Starting, Stopping, refuse, state, abort, wiggle, stop, all_started, refused, started,
  all_stopped, stopped,
}
use static_fire.Safety.Beside.{nothing}
use static_fire.State.{state_set}
use static_fire.Wiggle.{wiggle_stop}

module _ (env : Env) where
  start_all-Starting :
      (ts : List Bytes) (s : App) (n : ℕ) → Starting env ts s (start_all env ts s n).0
  unfolding start_all
  start_all-Starting [] s n = all_started
  start_all-Starting (t ∷ ts) s n = elim (Option-cases (parse_wiggle t)) [
    | inl e ↦ rw (e, start_all) (Starting.not_parsed e)
    | inr (w, e) ↦
        rw (e, start_all)
          (elim (Bool-cases (start_fields env s w).1) [
            | inl h ↦
                rw h (started e h nothing (start_all-Starting ts (start_fields env s w).0 (suc n)))
            | inr h ↦ rw h (refused e h)
          ])
  ]

  stop_all_ids-Stopping :
      (ts : List Bytes) (s : App) (n : ℕ) → Stopping env ts s (stop_all_ids env ts s n).0
  unfolding stop_all_ids
  stop_all_ids-Stopping [] s n = all_stopped
  stop_all_ids-Stopping (t ∷ ts) s n = elim (Option-cases (parse_stop t)) [
    | inl e ↦ rw (e, stop_all_ids) (Stopping.not_parsed e)
    | inr (id, e) ↦
        rw (e, stop_all_ids)
          (stopped e nothing (stop_all_ids-Stopping ts (wiggle_stop env s id).0 _))
  ]

  module _ (s : App) (c : ℕ) where
    -- Of a handler: if it took the text, what it does is one of the commands in sections.
    abbrev pub InSections : Option App → Type 0
    InSections none = Unit
    InSections (some t) = (reply : Bytes) × Sectioned env s c reply t

    either :
        (b : Bool) (o p : Option App)
        → InSections o
        → InSections p
        → InSections (if b then o else p)
    either true o p x y = x
    either false o p x y = y

    state_command-Sectioned :
        (st : AppState) (label : Bytes)
        → (reply : Bytes) × Sectioned env s c reply (state_command env s c st label)
    unfolding state_command state_set
    state_command-Sectioned st label = (_, state st nothing nothing nothing)

    handle_state_command-Sectioned : (text : Bytes) → InSections (handle_state_command env s c text)
    unfolding handle_state_command
    handle_state_command-Sectioned text = either (not (starts_with (lit "STATE#") text)) _ _ tt (
        either (equal (drop 6 text) (lit "PRECHILLING")) _ _
          (state_command-Sectioned prechilling (lit "PRECHILLING"))
          (either (equal (drop 6 text) (lit "HOTFIRE")) _ _
            (state_command-Sectioned hotfire (lit "HOTFIRE")) (_, refuse)))

    wiggle_in-Sectioned :
        (st : AppState) (command : Bytes)
        → s.state ≡ st
        → (reply : Bytes) × Sectioned env s c reply (wiggle_in env st s c command)
    unfolding wiggle_in
    wiggle_in-Sectioned hotfire command e = (_, refuse)
    wiggle_in-Sectioned prechilling command e =
        (_, wiggle command e nothing (start_all-Starting (arguments command) s 0) nothing)

    -- The handlers of STATE, ABORT, WIGGLE and WIGGLE_STOP, whatever the text.
    pub handlers-Sectioned :
        (text : Bytes)
        → InSections (handle_state_command env s c text)
          × InSections (handle_abort env s c text)
          × InSections (handle_wiggle env s c text)
          × InSections (handle_wiggle_stop env s c text)
    unfolding handle_abort handle_wiggle handle_wiggle_stop
    handlers-Sectioned text = (
      handle_state_command-Sectioned text,
      either (not (equal text (lit "ABORT#8765"))) _ _ tt (_, abort nothing nothing),
      either (not (is_wiggle text)) _ _ tt (wiggle_in-Sectioned s.state text refl),
      either (not (starts_with (lit "WIGGLE_STOP") text)) _ _ tt
          (_, stop text (stop_all_ids-Stopping (arguments text) s 0)),
    )
