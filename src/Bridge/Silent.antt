-- ===== src/Bridge/Silent.antt =====
-- src/ws/ws_bridge.c: the state behind the sending of texts.
use static_fire.Base.{Bytes, ℕ, Bool, List, [], ◌∷◌, ◌≡◌, refl, ◌∙◌, arith}
use static_fire.App.View.{view}
use static_fire.App.{App, ClientCtx, Env}
use static_fire.Bridge.{send_text, deliver, broadcast_text}

module _ (env : Env) where
  pub view-send_text : (s : App) (c : ℕ) (msg : Bytes) → view (send_text env s c msg) ≡ view s
  unfolding send_text view
  view-send_text s c msg = ground arith

  pub view-deliver :
      (payload : Bytes) (xs : List ClientCtx) (s : App) → view (deliver env payload xs s) ≡ view s
  unfolding deliver view
  view-deliver payload [] s = refl
  view-deliver payload (x ∷ xs) s = view-deliver payload xs _ ∙ ground arith

  pub view-broadcast_text :
      (s : App) (msg : Bytes) (stamp : Bool) → view (broadcast_text env s msg stamp) ≡ view s
  unfolding broadcast_text view
  view-broadcast_text s msg stamp = view-deliver _ s.clients _
