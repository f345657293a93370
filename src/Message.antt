-- ===== src/Message.antt =====
-- src/ws/ws_bridge.c: what the server does with a frame from a client.
use static_fire.Base.{Bytes, ℕ, not, if◌then◌else◌}
use static_fire.Text.{lit, c_string}
use static_fire.App.{App, Env, pong, logged, emit, called}
use static_fire.Bridge.{send_text}
use static_fire.Command.{command_handle_text}

-- `frame->type` of the WebSocket library, as far as the handler looks at it.
pub data FrameType : Type 0 where
  text_frame ping_frame other_frame : FrameType

module _ (env : Env) where
  unfoldable pub on_text : App → ℕ → Bytes → App
  on_text s client payload =
      if not (env.malloc_ok s.calls)
      then send_text env (called s) client (lit "Server error: out of memory")
      else command_handle_text env (emit (logged (lit "WS_RX") (c_string payload)) (called s))
          client (c_string payload)

  unfoldable pub on_message : App → ℕ → FrameType → Bytes → App
  unfolding on_text
  on_message s client text_frame payload = on_text s client payload
  on_message s client ping_frame payload = emit (pong client) s
  on_message s client other_frame payload = s
