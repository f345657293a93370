-- ===== src/Runtime/Loop.antt =====
-- src/main.c: the loop of the server over what `epoll_wait` returns; src/can/can_bus.c: reading a frame.
pub mod Ends
use static_fire.Base.{ℕ, Bool, true, false, Option, none, some, List, [], ◌∷◌, ◌==◌, if◌then◌else◌}
use static_fire.App.{App, CanFrame, Env}
use static_fire.Bus.{store_rx}
use static_fire.Runtime.{on_timer}

-- What one `read` of the CAN socket gives: a whole frame, EAGAIN, or an error or a part of a frame.
pub data ReadCall : Type 0 where
  whole : CanFrame → ReadCall
  would_block broken : ReadCall

-- The results 1, 0 and -1 of `can_bus_read_frame`.
pub data ReadResult : Type 0 where
  frame_read : CanFrame → ReadResult
  no_frame read_failed : ReadResult

unfoldable pub can_bus_read_frame : Option ℕ → ReadCall → ReadResult
can_bus_read_frame none read = read_failed
can_bus_read_frame (some fd) (whole f) = frame_read f
can_bus_read_frame (some fd) would_block = no_frame
can_bus_read_frame (some fd) broken = read_failed

-- The inner loop on the CAN socket, over what its reads give in turn.
unfoldable pub on_readable : List ReadCall → App → App
unfolding can_bus_read_frame
on_readable [] s = s
on_readable (read ∷ reads) s = elim (can_bus_read_frame s.can_fd read) [
  | frame_read f ↦ on_readable reads (store_rx s f)
  | no_frame ↦ s
  | read_failed ↦ s
]

-- One of the events: a descriptor that is ready, and what reading it gives.
pub record Ready : Type 0 where
  pub fd : ℕ
  pub reads : List ReadCall

-- What happens to the loop: `epoll_wait` returns events, or fails with EINTR or another error, or a
-- signal calls `on_signal`. A signal comes ahead of the test of the flag, or late: behind the test,
-- when `epoll_wait` returns once more, with the events given, or with none if it was interrupted.
pub data Happening : Type 0 where
  polled late_signal : List Ready → Happening
  interrupted poll_failed signal : Happening

-- `events[i].data.fd == fd`
unfoldable pub is_fd : Option ℕ → ℕ → Bool
is_fd none n = false
is_fd (some fd) n = fd == n

unfoldable pub on_signal : App → App
on_signal s = record s { stop = true }

module _ (env : Env) (fuel : ℕ) where
  -- With the time of the next heartbeat; `none` means that the fuel of its loop ran out.
  unfoldable pub with_time : App × Option ℕ → Option (App × ℕ)
  with_time (s, none) = none
  with_time (s, some next) = some (s, next)

  unfoldable pub on_event : Ready → App → ℕ → Option (App × ℕ)
  unfolding on_readable is_fd with_time
  on_event e s next =
      if is_fd s.can_fd e.fd
      then some (on_readable e.reads s, next)
      else if is_fd s.timer_fd e.fd
      then with_time (on_timer env fuel s next)
      else some (s, next)

  unfoldable pub on_events : List Ready → App → ℕ → Option (App × ℕ)
  unfolding on_event
  on_events [] s next = some (s, next)
  on_events (e ∷ es) s next = elim (on_event e s next) [
    | none ↦ none
    | some (t, later) ↦ on_events es t later
  ]

  -- The loop, as far as it is told what happens.
  unfoldable pub main_loop : List Happening → App → ℕ → Option (App × ℕ)
  unfolding on_events on_signal
  main_loop [] s next = some (s, next)
  main_loop (interrupted ∷ hs) s next =
      let rest = main_loop hs s next in if s.stop then some (s, next) else rest
  main_loop (poll_failed ∷ hs) s next = some (s, next)
  main_loop (signal ∷ hs) s next = main_loop hs (on_signal s) next
  main_loop (polled es ∷ hs) s next =
      if s.stop
      then some (s, next)
      else elim (on_events es s next) [ none ↦ none | some (t, later) ↦ main_loop hs t later ]
  -- The events do not look at the flag, which is set before they are handled or meanwhile.
  main_loop (late_signal es ∷ hs) s next =
      if s.stop then some (s, next) else elim (on_events es s next) [
        | none ↦ none
        | some (t, later) ↦ main_loop hs (on_signal t) later
      ]
