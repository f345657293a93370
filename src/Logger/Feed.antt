-- ===== src/Logger/Feed.antt =====
-- The server and its log: the events of the server that are lines of the log, in the file.
use static_fire.Base.{
  Bytes, ℕ, Bool, true, false, Option, none, some, List, [], ◌∷◌, ◌++◌, ◌≡◌, refl, sym, All, subst,
  append_assoc, append-nil, if◌then◌else◌,
}
use static_fire.Text.{lit, starts_with}
use static_fire.App.{CanFrame, WorkerArgs, Event, can_write, sent, pong, logged, spawned}
use static_fire.Logger.{Logger, Outside}
use static_fire.Logger.Maintenance.{logger_write, logger_printf}
use static_fire.Logger.Transcript.{
  IsNormal, HasRoom, line, Fits, AddsTo, logger_write-Adds, logger_printf-Adds,
}

module _ (out : Outside) where
  -- The texts of clients are written, all other lines are printed.
  unfoldable pub log_line : Bytes → Bytes → Logger → Option Logger
  log_line kind text l =
      if starts_with (lit "WS_") kind
      then logger_write out kind text l
      else logger_printf out kind text l

  unfoldable pub log_event : Event → Logger → Option Logger
  unfolding log_line
  log_event (logged kind text) l = log_line kind text l
  log_event (can_write f ok) l = some l
  log_event (sent c text) l = some l
  log_event (pong c) l = some l
  log_event (spawned args) l = some l

  -- The calls of the logger that a list of events stands for, the oldest first.
  unfoldable pub feed : List Event → Logger → Option Logger
  unfolding log_event
  feed [] l = some l
  feed (e ∷ es) l = elim (feed es l) [ none ↦ none | some t ↦ log_event e t ]

  -- One line for each event that is one, in order, each with a time that the clock has shown.
  pub data IsTranscript : List Event → Bytes → Type 0 where
    empty : IsTranscript [] []
    line_added :
        {es : List Event} {b : Bytes} {kind text : Bytes} (n : ℕ)
        → IsTranscript es b
        → IsTranscript (logged kind text ∷ es) (b ++ line (out.realtime_ns n) kind text)
    frame_skipped :
        {es : List Event} {b : Bytes} {f : CanFrame} {ok : Bool}
        → IsTranscript es b
        → IsTranscript (can_write f ok ∷ es) b
    text_skipped :
        {es : List Event} {b : Bytes} {c : ℕ} {text : Bytes}
        → IsTranscript es b
        → IsTranscript (sent c text ∷ es) b
    pong_skipped :
        {es : List Event} {b : Bytes} {c : ℕ} → IsTranscript es b → IsTranscript (pong c ∷ es) b
    thread_skipped :
        {es : List Event} {b : Bytes} {args : WorkerArgs}
        → IsTranscript es b
        → IsTranscript (spawned args ∷ es) b

module _ (out : Outside) {size : ℕ} (room : HasRoom out size) where
  either :
      (file kind text : Bytes) (b : Bool) (o p : Option Logger)
      → AddsTo out room file kind text o
      → AddsTo out room file kind text p
      → AddsTo out room file kind text (if b then o else p)
  either file kind text true o p x y = x
  either file kind text false o p x y = y

  log_line-Adds :
      (kind text : Bytes) (l : Logger) {file : Bytes}
      → Fits out room kind text
      → IsNormal l file
      → AddsTo out room file kind text (log_line out kind text l)
  unfolding log_line
  log_line-Adds kind text l {file} f x =
      either file kind text (starts_with (lit "WS_") kind) _ _
        (logger_write-Adds out room kind text l f x) (logger_printf-Adds out room kind text l f x)

  abbrev pub EventFits : Event → Type 0
  EventFits (logged kind text) = Fits out room kind text
  EventFits (can_write f ok) = Unit
  EventFits (sent c text) = Unit
  EventFits (pong c) = Unit
  EventFits (spawned args) = Unit

  abbrev Feeds : List Event → Bytes → Option Logger → Type 0
  Feeds es file o =
      (t : Logger) × (b : Bytes) × (o ≡ some t) × IsNormal t (file ++ b) × IsTranscript out es b

  next :
      (e : Event) (es : List Event) (file : Bytes) (t : Logger) (b : Bytes)
      → EventFits e
      → IsNormal t (file ++ b)
      → IsTranscript out es b
      → Feeds (e ∷ es) file (log_event out e t)
  unfolding log_event
  next (logged kind text) es file t b f x y =
      let (u, e, (n, z)) = log_line-Adds kind text t f x in
      (
        u,
        b ++ line (out.realtime_ns n) kind text,
        e,
        subst (IsNormal u) (append_assoc file b _) z,
        line_added n y,
      )
  next (can_write g ok) es file t b f x y = (t, b, refl, x, frame_skipped y)
  next (sent c text) es file t b f x y = (t, b, refl, x, text_skipped y)
  next (pong c) es file t b f x y = (t, b, refl, x, pong_skipped y)
  next (spawned args) es file t b f x y = (t, b, refl, x, thread_skipped y)

  -- While the disk has room, and takes every line at once, each call of the logger ends, and the file
  -- is what it was with a line for each line that the server logged behind it, in order and none
  -- other.
  pub feed-IsTranscript :
      (es : List Event) (l : Logger) {file : Bytes}
      → All EventFits es
      → IsNormal l file
      → (t : Logger) × (b : Bytes) × (feed out es l ≡ some t)
        × IsNormal t (file ++ b)
        × IsTranscript out es b
  unfolding feed
  feed-IsTranscript [] l {file} f x =
      (l, [], refl, subst (IsNormal l) (sym (append-nil file)) x, empty)
  feed-IsTranscript (e ∷ es) l {file} f x =
      let (t, b, same, y, z) = feed-IsTranscript es l {file = file} f.1 x in
      let (u, d, ends, v, w) = next e es file t b f.0 y z in (u, d, rw (same, feed) ends, v, w)
