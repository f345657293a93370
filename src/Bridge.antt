-- ===== src/Bridge.antt =====
-- src/ws/ws_bridge.c: the clients that are connected, and the texts that go to them.
pub mod Silent
pub mod Delivery
pub mod Failures
use static_fire.Base.{
  Bytes, ℕ, suc, ◌+◌, Bool, true, false, not, ◌&&◌, ◌||◌, Option, none, some, List, [], ◌∷◌, ◌++◌,
  leb, ◌==◌, if◌then◌else◌, length,
}
use static_fire.Text.Print.{decimal, truncated}
use static_fire.Text.{lit}
use static_fire.App.{
  AppState, prechilling, hotfire, App, ClientCtx, Env, sent, logged, emit, called,
}

-- `app_state_label` of src/control/state.c
unfoldable pub state_label : AppState → Bytes
state_label prechilling = lit "PRECHILLING"
state_label hotfire = lit "HOTFIRE"

-- The `app_client_ctx_t` that `ws_client_get_user_data` returns for a client.
unfoldable pub user_data : ℕ → List ClientCtx → Option ClientCtx
user_data c [] = none
user_data c (x ∷ xs) = if x.client == c then some x else user_data c xs

-- A write of `write_only` through that pointer.
unfoldable pub set_write_only : ℕ → Bool → List ClientCtx → List ClientCtx
set_write_only c b [] = []
set_write_only c b (x ∷ xs) =
    if x.client == c then record x { write_only = b } ∷ xs else x ∷ set_write_only c b xs

-- The walk with `pp` in `on_disconnect`.
unfoldable pub unlink : ℕ → List ClientCtx → List ClientCtx
unlink c [] = []
unlink c (x ∷ xs) = if x.client == c then xs else x ∷ unlink c xs

unfoldable pub on_disconnect : App → ℕ → App
unfolding unlink
on_disconnect s client = record s { clients = unlink client s.clients }

-- Stopping the library closes its clients; whatever that unlinks, the list is freed behind it.
unfoldable pub ws_bridge_stop : App → App
ws_bridge_stop s = if s.ws then record s { ws = false; clients = [] } else s

module _ (env : Env) where
  -- `ws_client_is_connected (client) && ws_client_handshake_done (client)`
  abbrev pub is_open : App → ℕ → Bool
  is_open s c = env.is_connected s.calls c && env.handshake_done s.calls c

  unfoldable pub send_text : App → ℕ → Bytes → App
  send_text s client msg =
      if not s.ws
      then s
      else if is_open s client
      then emit (sent client msg) (called s)
      else called s

  unfoldable pub send_current_state : App → ℕ → App
  unfolding send_text state_label
  send_current_state s client =
      send_text s client (truncated 64 (lit "State has been set to " ++ state_label s.state))

  -- The text that is sent: with the time in front, unless no buffer could be had.
  unfoldable pub prefixed : App → Bytes → Bytes
  prefixed s msg =
      let needed = length msg + 32 in
      if leb needed 2048 || env.malloc_ok s.calls
      then truncated needed (decimal (env.realtime_ns s.calls) ++ (b'|' ∷ msg))
      else msg

  -- The loop over the list of clients.
  unfoldable pub deliver : Bytes → List ClientCtx → App → App
  deliver payload [] s = s
  deliver payload (x ∷ xs) s = deliver payload xs (
      if is_open s x.client && not x.write_only
      then emit (sent x.client payload) (called s)
      else called s)

  unfoldable pub broadcast_text : App → Bytes → Bool → App
  unfolding prefixed deliver
  broadcast_text s msg prefix_timestamp =
      let payload = if prefix_timestamp then prefixed s msg else msg in
      deliver payload s.clients (emit (logged (lit "WS_TX") payload) (called s))

  -- Without memory the client is closed, and the state is as it was.
  unfoldable pub on_connect : App → ℕ → App
  unfolding send_text send_current_state
  on_connect s client =
      if not (env.malloc_ok s.calls)
      then called s
      else let linked = record s {
        clients = record { client = client; write_only = false } ∷ s.clients;
        calls = suc s.calls;
      } in
        send_current_state (send_text linked client (lit "Hello from server")) client
