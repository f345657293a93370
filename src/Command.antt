-- ===== src/Command.antt =====
-- src/control/command.c: the text commands of the clients. A handler that returns false is `none`:
-- it has then changed nothing.
pub mod Fields
pub mod Testing
pub mod Live
pub mod RoundTrip
pub mod Sends
use static_fire.Base.{Bytes, ℕ, suc, Bool, true, false, not, Option, none, some, if◌then◌else◌}
use static_fire.Text.{lit, equal, starts_with}
use static_fire.App.{AppState, prechilling, hotfire, App, ClientCtx, Env, called}
use static_fire.State.{app_state_get}
use static_fire.Bridge.{user_data, set_write_only, send_text}
use Fields.{drop}
use Testing.{handle_testing_command}
use Live.{
  handle_abort, handle_state_command, handle_set_valve, handle_wiggle_stop, handle_wiggle,
  handle_drown, handle_fire, handle_raw_can,
}

unfoldable pub strip_can_prefix : Bytes → Bytes
strip_can_prefix text = if starts_with (lit "CAN1|") text then drop 5 text else text

abbrev pub or_else : Option App → App → App
or_else none s = s
or_else (some t) s = t

abbrev pub is_some : Option ClientCtx → Bool
is_some none = false
is_some (some c) = true

module _ (env : Env) where
  unfoldable pub handle_read_toggle : App → ℕ → Bytes → Option App
  handle_read_toggle s client text =
      if not (is_some (user_data client s.clients))
      then none
      else if equal text (lit "READ-DISABLE")
      then some (
          send_text env (record s { clients = set_write_only client true s.clients }) client
            (lit "Write-only mode enabled"))
      else if equal text (lit "READ-ENABLE")
      then some (
          send_text env (record s { clients = set_write_only client false s.clients }) client
            (lit "Write-only mode disabled"))
      else none

  -- The last part of the dispatch: what is refused while the system prechills.
  unfoldable pub handle_hotfire : AppState → App → ℕ → Bytes → App
  handle_hotfire prechilling s client text =
      send_text env s client (lit "System is in PRE-HOTFIRE state; command ignored.")
  handle_hotfire hotfire s client text = or_else (handle_drown env s client text) (
      or_else (handle_fire env s client text) (
        or_else (handle_raw_can env s client text)
          (send_text env s client (lit "Invalid command"))))

  -- Behind the copy of the text that the wiggle handlers cut up.
  unfoldable pub handle_operation : App → ℕ → Bytes → App
  unfolding handle_hotfire
  handle_operation s client text =
      if not (env.malloc_ok s.calls)
      then send_text env (called s) client (lit "Server error: out of memory")
      else or_else (handle_wiggle_stop env (called s) client text) (
          or_else (handle_wiggle env (called s) client text)
            (handle_hotfire (app_state_get s) (called s) client text))

  unfoldable pub handle_control : App → ℕ → Bytes → App
  unfolding handle_operation
  handle_control s client text = or_else (handle_abort env s client text) (
      or_else (handle_state_command env s client text)
        (or_else (handle_set_valve env s client text) (handle_operation s client text)))

  unfoldable pub command_handle_text : App → ℕ → Bytes → App
  unfolding handle_read_toggle strip_can_prefix
  command_handle_text s client text = or_else (handle_read_toggle s client text) (
      if s.config.testing_mode
      then handle_testing_command env s client (strip_can_prefix text)
      else if s.config.read_only
      then send_text env s client (lit "The client is not allowed to execute commands")
      else handle_control s client (strip_can_prefix text))
