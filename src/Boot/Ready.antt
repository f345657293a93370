-- ===== src/Boot/Ready.antt =====
-- src/main.c: what the start leaves, when it succeeds and when it fails.
use static_fire.Base.{
  ℕ, suc, Bool, true, false, Option, none, some, List, [], ◌∷◌, ◌≡◌, arith, inl, inr, if◌then◌else◌,
  Bool-cases, ap,
}
use static_fire.App.{AppConfig}
use static_fire.Boot.Held.{IsHeld, Step, and_then-Step, pick-Step, Place, At, configure-Step}
use static_fire.Boot.Interface.{Host, Starting, started, and_then, bind_socket, can_bus_open}
use static_fire.Boot.{
  timer_value, register_fd, store_can, open_can, store_epoll, create_epoll, store_timer,
  create_timer, set_timer, configure, register_can, register_timer, init_can,
}
use static_fire.Text.{is_empty}

-- The descriptors and the watches behind each step.
abbrev pub place :
    AppConfig → Option ℕ → Option ℕ → Option ℕ → List ℕ → Option (ℕ × ℕ × Bool) → Place
place cfg can epoll timer ws a = record {
  config = cfg;
  can = can;
  epoll = epoll;
  timer = timer;
  watched = ws;
  armed = a;
}

-- Everything is open and watched, and the timer runs with the interval of the configuration.
pub record IsRunning (cfg : AppConfig) (s : Starting) : Type 0 where
  pub can : ℕ
  pub epoll : ℕ
  pub timer : ℕ
  pub at :
      At
        (place cfg
          (some can)
          (some epoll)
          (some timer)
          (timer ∷ can ∷ [])
          (some (timer_value cfg.tick_interval_ms)))
        s

module _ (host : Host) (cfg : AppConfig) where
  abbrev First : Starting → Type 0
  First = At (place cfg none none none [] none)

  -- A socket that has been opened is closed again, or it is the one of the state.
  given_up :
      (fd n : ℕ) (s : Starting)
      → First s
      → IsHeld (record s {
        app = record s.app { can_fd = none };
        opened = fd ∷ s.opened;
        closed = fd ∷ s.closed;
        calls = n;
      })
  given_up fd n s x =
      let can = ap (λ (p : Place). p.can) x.here in
      let epoll = ap (λ (p : Place). p.epoll) x.here in
      let timer = ap (λ (p : Place). p.timer) x.here in
      λ d. let h = rw (can, epoll, timer) at x.held d in rw (epoll, timer) (ground (arith, h))

  bound :
      (fd n : ℕ) (s : Starting)
      → First s
      → At
          (place cfg (some fd) none none [] none)
          (record s { app = record s.app { can_fd = some fd }; opened = fd ∷ s.opened; calls = n })
  bound fd n s x =
      let can = ap (λ (p : Place). p.can) x.here in
      record {
        here = ap (λ (p : Place). record p { can = some fd }) x.here;
        held = λ d. let h = rw can at x.held d in ground (arith, h);
      }

  refused : (s : Starting) → First s → IsHeld (record s { app = record s.app { can_fd = none } })
  refused s x = let can = ap (λ (p : Place). p.can) x.here in λ d. rw can at x.held d

  WithSocket : Starting → Type 0
  WithSocket s = (fd : ℕ) × At (place cfg (some fd) none none [] none) s

  bind_socket-Step :
      (o : Option ℕ) (s : Starting)
      → First s
      → Step WithSocket (store_can host (bind_socket host o s))
  unfolding bind_socket store_can WithSocket
  bind_socket-Step none s x = refused s x
  bind_socket-Step (some fd) s x = elim (Bool-cases (host.ioctl_ok s.calls)) [
    | inr h ↦ rw h (given_up fd (suc s.calls) s x)
    | inl h ↦ elim (Bool-cases (host.bind_ok (suc s.calls))) [
      | inr k ↦ rw (h, k) (given_up fd (suc (suc s.calls)) s x)
      | inl k ↦ rw (h, k) (fd, bound fd (suc (suc s.calls)) s x)
    ]
  ]

  open_can-Step : (s : Starting) → First s → Step WithSocket (open_can host s)
  unfolding open_can can_bus_open
  open_can-Step s x = go (is_empty s.app.config.can_ifname)
    where
      go :
          (b : Bool)
          → Step WithSocket (
              store_can host
                (if b then (s, none) else bind_socket host (host.socket s.calls) (started s)))
      go true = unfold store_can in refused s x
      go false =
          bind_socket-Step (host.socket s.calls) (started s)
            (record { here = x.here; held = x.held })

  -- Behind the socket: the state with an epoll descriptor, and then with a timer.
  WithEpoll : (watched : ℕ → List ℕ) → Starting → Type 0
  WithEpoll watched s = (fd e : ℕ) × At (place cfg (some fd) (some e) none (watched fd) none) s

  WithTimer : Option (ℕ × ℕ × Bool) → Starting → Type 0
  WithTimer a s = (fd e t : ℕ) × At (place cfg (some fd) (some e) (some t) (fd ∷ []) a) s

  create_epoll-Step :
      (s : Starting) → WithSocket s → Step (WithEpoll (λ _. [])) (create_epoll host s)
  unfolding create_epoll store_epoll WithSocket WithEpoll
  create_epoll-Step s (fd, x) = go (host.epoll_create s.calls)
    where
      lacking : s.app.epoll_fd ≡ none
      lacking = ap (λ (p : Place). p.epoll) x.here

      go : (o : Option ℕ) → Step (WithEpoll (λ _. [])) (store_epoll host o (started s))
      go none = λ d. rw lacking at x.held d
      go (some e) = (
        fd,
        e,
        record {
          here = ap (λ (p : Place). record p { epoll = some e }) x.here;
          held = λ d.
              let h = rw (ap (λ (p : Place). p.can) x.here, lacking) at x.held d in
              rw (ap (λ (p : Place). p.can) x.here) (ground (arith, h));
        },
      )

  register_fd-Step :
      (Q : Starting → Type 0) (epoll other : Option ℕ) (fd : ℕ) (s : Starting)
      → other ≡ some fd
      → IsHeld s
      → Q (record (started s) { watched = fd ∷ s.watched })
      → Step Q (register_fd host epoll other s)
  unfolding register_fd
  register_fd-Step Q none other fd s e h q = h
  register_fd-Step Q (some n) none fd s e h q = h
  register_fd-Step Q (some n) (some d) fd s e h q =
      let same : d ≡ fd = cc e in
      pick-Step Q (host.epoll_ctl_ok s.calls) _ _ (λ _. rw same q) (λ _. h)

  register_can-Step :
      (s : Starting)
      → WithEpoll (λ _. []) s
      → Step (WithEpoll (λ fd. fd ∷ [])) (register_can host s)
  unfolding register_can WithEpoll
  register_can-Step s (fd, e, x) =
      register_fd-Step (WithEpoll (λ fd. fd ∷ [])) s.app.epoll_fd s.app.can_fd fd s
        (ap (λ (p : Place). p.can) x.here) x.held
        (
          fd,
          e,
          record {
            here = ap (λ (p : Place). record p { watched = fd ∷ p.watched }) x.here;
            held = x.held;
          },
        )

  create_timer-Step :
      (s : Starting) → WithEpoll (λ fd. fd ∷ []) s → Step (WithTimer none) (create_timer host s)
  unfolding create_timer store_timer WithEpoll WithTimer
  create_timer-Step s (fd, e, x) = go (host.timerfd_create s.calls)
    where
      lacking : s.app.timer_fd ≡ none
      lacking = ap (λ (p : Place). p.timer) x.here

      go : (o : Option ℕ) → Step (WithTimer none) (store_timer host o (started s))
      go none = λ d. rw lacking at x.held d
      go (some t) = (
        fd,
        e,
        t,
        record {
          here = ap (λ (p : Place). record p { timer = some t }) x.here;
          held = λ d.
              let can = ap (λ (p : Place). p.can) x.here in
              let epoll = ap (λ (p : Place). p.epoll) x.here in
              let h = rw (can, epoll, lacking) at x.held d in rw (can, epoll) (ground (arith, h));
        },
      )

  set_timer-Step :
      (s : Starting)
      → WithTimer none s
      → Step (WithTimer (some (timer_value cfg.tick_interval_ms))) (set_timer host s)
  unfolding set_timer WithTimer
  set_timer-Step s (fd, e, t, x) =
      pick-Step (WithTimer (some (timer_value cfg.tick_interval_ms))) (host.settime_ok s.calls) _ _
        (λ _. (
          fd,
          e,
          t,
          record {
            here =
                ap
                  (λ (p : Place). record p { armed = some (timer_value p.config.tick_interval_ms) })
                  x.here;
            held = x.held;
          },
        ))
        (λ _. x.held)

  register_timer-Step :
      (s : Starting)
      → WithTimer (some (timer_value cfg.tick_interval_ms)) s
      → Step (IsRunning cfg) (register_timer host s)
  unfolding register_timer WithTimer
  register_timer-Step s (fd, e, t, x) =
      register_fd-Step (IsRunning cfg) s.app.epoll_fd s.app.timer_fd t s
        (ap (λ (p : Place). p.timer) x.here) x.held
        (record {
          can = fd;
          epoll = e;
          timer = t;
          at = record {
            here = ap (λ (p : Place). record p { watched = t ∷ p.watched }) x.here;
            held = x.held;
          };
        })

  pub init_can-Step : (s : Starting) → First s → Step (IsRunning cfg) (init_can host s)
  unfolding init_can
  init_can-Step s x =
      let timer = some (timer_value cfg.tick_interval_ms) in
      let r1 = configure host s in
      let r2 = and_then (open_can host) r1 in
      let r3 = and_then (create_epoll host) r2 in
      let r4 = and_then (register_can host) r3 in
      let r5 = and_then (create_timer host) r4 in
      let r6 = and_then (set_timer host) r5 in
      let x1 = configure-Step (place cfg none none none [] none) host s x in
      let x2 = and_then-Step First WithSocket (open_can host) r1 open_can-Step x1 in
      let x3 =
        and_then-Step WithSocket (WithEpoll (λ _. [])) (create_epoll host) r2 create_epoll-Step
          x2 in
      let x4 =
        and_then-Step (WithEpoll (λ _. [])) (WithEpoll (λ fd. fd ∷ [])) (register_can host) r3
          register_can-Step x3 in
      let x5 =
        and_then-Step (WithEpoll (λ fd. fd ∷ [])) (WithTimer none) (create_timer host) r4
          create_timer-Step x4 in
      let x6 =
        and_then-Step (WithTimer none) (WithTimer timer) (set_timer host) r5 set_timer-Step x5 in
      and_then-Step (WithTimer timer) (IsRunning cfg) (register_timer host) r6 register_timer-Step
        x6
