-- ===== src/Bridge/Delivery.antt =====
-- src/ws/ws_bridge.c: which clients a broadcast reaches, and the list of clients.
use static_fire.Base.{
  Bytes, ℕ, suc, Bool, true, false, not, ◌&&◌, some, List, [], ◌∷◌, ◌++◌, ◌≡◌, refl, ◌∙◌, ap, arith,
  ◌==◌, if◌then◌else◌, All, Bool-cases, inl, inr,
}
use static_fire.App.{App, ClientCtx, Env, Event, can_write, sent, pong, logged, spawned}
use static_fire.Text.{lit}
use static_fire.Bridge.{
  user_data, set_write_only, unlink, send_text, deliver, broadcast_text, prefixed, on_connect,
  on_disconnect, send_current_state,
}

-- The texts that a client was sent, the newest first.
abbrev pub received : ℕ → List Event → List Bytes
received c [] = []
received c (sent d text ∷ es) = if d == c then text ∷ received c es else received c es
received c (can_write f ok ∷ es) = received c es
received c (pong d ∷ es) = received c es
received c (logged a b ∷ es) = received c es
received c (spawned a ∷ es) = received c es

-- A client that takes broadcasts.
abbrev pub reads : ℕ → ClientCtx → Bool
reads c x = x.client == c && not x.write_only

-- The texts of a client, with one more for each entry of the list that reads for it.
abbrev pub copies : ℕ → Bytes → List ClientCtx → List Bytes → List Bytes
copies c payload [] r = r
copies c payload (x ∷ xs) r = copies c payload xs (if reads c x then payload ∷ r else r)

copies-silent :
    (c : ℕ) (payload : Bytes) (xs : List ClientCtx) (r : List Bytes)
    → All (λ x. reads c x ≡ false) xs
    → copies c payload xs r ≡ r
copies-silent c payload [] r a = refl
copies-silent c payload (x ∷ xs) r a = rw (a.0, copies) (copies-silent c payload xs r a.1)

copies-once :
    (c : ℕ) (payload : Bytes) (front : List ClientCtx) (x : ClientCtx) (back : List ClientCtx)
    (r : List Bytes)
    → All (λ y. reads c y ≡ false) front
    → reads c x ≡ true
    → All (λ y. reads c y ≡ false) back
    → copies c payload (front ++ (x ∷ back)) r ≡ payload ∷ r
copies-once c payload [] x back r a h b =
    rw (h, copies) (copies-silent c payload back (payload ∷ r) b)
copies-once c payload (y ∷ ys) x back r a h b =
    rw (a.0, copies) (copies-once c payload ys x back r a.1 h b)

module _ (env : Env) where
  deliver-silent :
      (c : ℕ) (payload : Bytes) (xs : List ClientCtx) (s : App)
      → All (λ x. reads c x ≡ false) xs
      → received c (deliver env payload xs s).events ≡ received c s.events
  unfolding deliver
  deliver-silent c payload [] s a = refl
  deliver-silent c payload (x ∷ xs) s a = deliver-silent c payload xs _ a.1 ∙ ground (arith, a.0)

  deliver-copies :
      (c : ℕ) (payload : Bytes)
      → ((n : ℕ) → (env.is_connected n c && env.handshake_done n c) ≡ true)
      → (xs : List ClientCtx) (s : App)
      → received c (deliver env payload xs s).events ≡ copies c payload xs (received c s.events)
  unfolding deliver
  deliver-copies c payload o [] s = refl
  deliver-copies c payload o (x ∷ xs) s =
      deliver-copies c payload o xs _ ∙ ap (copies c payload xs) (ground (arith, o s.calls))

  -- A broadcast sends a client nothing if no entry of the list reads for it, as after READ-DISABLE.
  pub broadcast_text-silent :
      (s : App) (msg : Bytes) (stamp : Bool) (c : ℕ)
      → All (λ x. reads c x ≡ false) s.clients
      → received c (broadcast_text env s msg stamp).events ≡ received c s.events
  unfolding broadcast_text
  broadcast_text-silent s msg stamp c a = deliver-silent c _ s.clients _ a

  -- A broadcast reaches a client that reads, stands once in the list and stays open, exactly once,
  -- with the time in front if that is asked.
  pub broadcast_text-once :
      (s : App) (msg : Bytes) (stamp : Bool) (c : ℕ) (front : List ClientCtx) (x : ClientCtx)
      (back : List ClientCtx)
      → s.clients ≡ front ++ (x ∷ back)
      → All (λ y. reads c y ≡ false) front
      → reads c x ≡ true
      → All (λ y. reads c y ≡ false) back
      → ((n : ℕ) → (env.is_connected n c && env.handshake_done n c) ≡ true)
      → received c (broadcast_text env s msg stamp).events
        ≡ (if stamp then prefixed env s msg else msg) ∷ received c s.events
  unfolding broadcast_text
  broadcast_text-once s msg stamp c front x back e a h b o =
      let payload = if stamp then prefixed env s msg else msg in
      deliver-copies c payload o s.clients _
      ∙ rw e (copies-once c payload front x back (received c s.events) a h b)

-- Behind READ-DISABLE, with one entry for each client, no entry of the list reads for the client.
abbrev pub Apart : List ClientCtx → Type 0
Apart [] = Unit
Apart (x ∷ xs) = All (λ y. (y.client == x.client) ≡ false) xs × Apart xs

others-silent :
    (c : ℕ) (x : ClientCtx) (xs : List ClientCtx)
    → (x.client == c) ≡ true
    → All (λ y. (y.client == x.client) ≡ false) xs
    → All (λ y. reads c y ≡ false) xs
others-silent c x [] h a = tt
others-silent c x (y ∷ ys) h a = (ground (arith, a.0), others-silent c x ys h a.1)

set_write_only-silent :
    (c : ℕ) (xs : List ClientCtx)
    → Apart xs
    → All (λ y. reads c y ≡ false) (set_write_only c true xs)
unfolding set_write_only
set_write_only-silent c [] a = tt
set_write_only-silent c (x ∷ xs) a = elim (Bool-cases (x.client == c)) [
  | inl h ↦ rw h (ground arith, others-silent c x xs h a.0)
  | inr h ↦ rw h (ground arith, set_write_only-silent c xs a.1)
]

-- READ-DISABLE is kept: with one entry for each client, no later broadcast reaches a client whose
-- entry was set to write-only, while the list stays as it is.
pub set_write_only-broadcast :
    (env : Env) (s : App) (c : ℕ) (msg : Bytes) (stamp : Bool)
    → Apart s.clients
    → let t = record s { clients = set_write_only c true s.clients } in
      received c (broadcast_text env t msg stamp).events ≡ received c s.events
set_write_only-broadcast env s c msg stamp a =
    broadcast_text-silent env (record s { clients = set_write_only c true s.clients }) msg stamp c
      (set_write_only-silent c s.clients a)

unlink-absent :
    (c : ℕ) (xs : List ClientCtx) → All (λ x. (x.client == c) ≡ false) xs → unlink c xs ≡ xs
unfolding unlink
unlink-absent c [] a = refl
unlink-absent c (x ∷ xs) a = rw a.0 (ap (λ ys. x ∷ ys) (unlink-absent c xs a.1))

pub clients-send_text :
    (env : Env) (s : App) (c : ℕ) (msg : Bytes) → (send_text env s c msg).clients ≡ s.clients
unfolding send_text
clients-send_text env s c msg = ground arith

clients-send_current_state :
    (env : Env) (s : App) (c : ℕ) → (send_current_state env s c).clients ≡ s.clients
unfolding send_current_state
clients-send_current_state env s c = clients-send_text env s c _

clients-on_connect :
    (env : Env) (s : App) (c : ℕ)
    → (on_connect env s c).clients ≡ (
        if env.malloc_ok s.calls
        then record { client = c; write_only = false } ∷ s.clients
        else s.clients)
unfolding on_connect
clients-on_connect env s c = elim (Bool-cases (env.malloc_ok s.calls)) [
  | inr h ↦ rw h refl
  | inl h ↦
      let linked = record s {
        clients = record { client = c; write_only = false } ∷ s.clients;
        calls = suc s.calls;
      } in
      rw h (
        clients-send_current_state env (send_text env linked c (lit "Hello from server")) c
        ∙ clients-send_text env linked c (lit "Hello from server"))
]

-- A client that was not in the list and connects reads broadcasts, unless memory ran out; when it
-- disconnects the list is as it was before, in either case.
pub on_disconnect-on_connect :
    (env : Env) (s : App) (c : ℕ)
    → All (λ x. (x.client == c) ≡ false) s.clients
    → ((on_disconnect (on_connect env s c) c).clients ≡ s.clients)
      × (env.malloc_ok s.calls ≡ true
          → user_data c (on_connect env s c).clients
            ≡ some (record { client = c; write_only = false }))
unfolding on_disconnect unlink user_data
on_disconnect-on_connect env s c a = elim (Bool-cases (env.malloc_ok s.calls)) [
  | inl h ↦ rw (clients-on_connect env s c, h) (ground arith, λ _. ground arith)
  | inr h ↦ rw (clients-on_connect env s c, h) (unlink-absent c s.clients a, λ k. cc k)
]
