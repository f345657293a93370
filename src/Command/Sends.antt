-- ===== src/Command/Sends.antt =====
-- src/control/command.c: a raw command, from its text to the bus.
use static_fire.Base.{
  Bytes, ℕ, zero, suc, ◌≤◌, ◌<◌, Bool, true, false, none, some, [], ◌∷◌, ◌++◌, ◌≡◌, refl, ◌∙◌,
  arith, ap, ltb, if◌then◌else◌, All, All-append, Bool-cases, inl, inr, ◌⊎◌, replicate,
  append_assoc, subst, sym, ◌/◌, ◌%◌,
}
use static_fire.Bus.{entry_text, command_frame, send_command}
use static_fire.Bus.Frames.{send_command-taken, send_command-cases}
use static_fire.Bridge.{send_text}
use static_fire.Bridge.Silent.{view-send_text}
use static_fire.App.{App, AppState, prechilling, hotfire, Env, called, emit, logged}
use static_fire.App.View.{View, view}
use static_fire.Text.{lit, equal, starts_with}
use static_fire.Text.Print.{digit, digits, hexadecimal, hex_pad}
use static_fire.Command.Live.{
  raw_text, raw_can, handle_raw_can, handle_abort, handle_state_command, handle_set_valve,
  handle_wiggle_stop, handle_wiggle, handle_drown, handle_fire,
}
use static_fire.Command.{
  command_handle_text, handle_control, handle_operation, handle_hotfire, handle_read_toggle,
  strip_can_prefix,
}
use static_fire.Command.Fields.{RawCan, is_wiggle}
use static_fire.Command.RoundTrip.{IsRaw, parse_raw_can_fields-raw_text}

-- Not a capital letter.
abbrev Low : ℕ → Type 0
Low c = (c < 65) ⊎ (90 < c)

digit-Low : (d : ℕ) → Low (digit d)
unfolding digit
digit-Low d = ground arith

digits-Low : (fuel base n : ℕ) → All Low (digits fuel base n)
unfolding digits
digits-Low zero base n = tt
digits-Low (suc fuel) base n = elim (Bool-cases (ltb n base)) [
  | inl h ↦ rw h (digit-Low n, tt)
  | inr h ↦ rw h (All-append Low _ _ (digits-Low fuel base (n / base)) (digit-Low (n % base), tt))
]

zeros-Low : (n : ℕ) → All Low (replicate n b'0')
zeros-Low zero = tt
zeros-Low (suc n) = (inl (omega arith), zeros-Low n)

hex_pad-Low : (w n : ℕ) → All Low (hex_pad w n)
unfolding hex_pad hexadecimal
hex_pad-Low w n = All-append Low _ _ (zeros-Low _) (digits-Low 16 16 n)

-- A text that none of the other commands matches.
record IsPlain (text : Bytes) : Type 0 where
  no_disable : equal text (lit "READ-DISABLE") ≡ false
  no_enable : equal text (lit "READ-ENABLE") ≡ false
  no_prefix : starts_with (lit "CAN1|") text ≡ false
  no_abort : equal text (lit "ABORT#8765") ≡ false
  no_state : starts_with (lit "STATE#") text ≡ false
  no_valve : starts_with (lit "SET_VALVE") text ≡ false
  no_stop : starts_with (lit "WIGGLE_STOP") text ≡ false
  no_wiggle : starts_with (lit "WIGGLE") text ≡ false
  no_drown : equal text (lit "DROWN#8765") ≡ false
  no_fire : starts_with (lit "FIRE#8765") text ≡ false

Low-IsPlain : (c : ℕ) (text : Bytes) → Low c → IsPlain (c ∷ text)
unfolding lit equal starts_with
Low-IsPlain c text h = record {
  no_disable = ground (arith, h);
  no_enable = ground (arith, h);
  no_prefix = ground (arith, h);
  no_abort = ground (arith, h);
  no_state = ground (arith, h);
  no_valve = ground (arith, h);
  no_stop = ground (arith, h);
  no_wiggle = ground (arith, h);
  no_drown = ground (arith, h);
  no_fire = ground (arith, h);
}

hash-IsPlain : (front back : Bytes) → All Low front → IsPlain (front ++ (b'#' ∷ back))
hash-IsPlain [] back h = Low-IsPlain b'#' back (inl (omega arith))
hash-IsPlain (c ∷ front) back h = Low-IsPlain c _ h.0

raw_text-IsPlain : (r : RawCan) → IsPlain (raw_text r)
unfolding entry_text
raw_text-IsPlain r =
    subst IsPlain (sym (append_assoc (hex_pad 3 r.id) (b'#' ∷ hex_pad 4 r.value) _))
      (hash-IsPlain (hex_pad 3 r.id) _ (hex_pad-Low 3 r.id))

-- The view with the frame of a command added to the bus.
abbrev pub with_frame : RawCan → View → View
with_frame r v = record v { on_bus = command_frame r.id r.value r.duration_ms ∷ v.on_bus }

module _ (env : Env) where
  -- Each of them is passed on to the end of the dispatch.
  handle_control-plain :
      (s : App) (c : ℕ) (text : Bytes)
      → IsPlain text
      → handle_control env s c text ≡ handle_operation env s c text
  unfolding handle_control handle_abort handle_state_command handle_set_valve
  handle_control-plain s c text p = rw (p.no_abort, p.no_state, p.no_valve) refl

  handle_operation-plain :
      (s : App) (c : ℕ) (text : Bytes)
      → IsPlain text
      → env.malloc_ok s.calls ≡ true
      → handle_operation env s c text ≡ handle_hotfire env s.state (called s) c text
  unfolding handle_operation handle_wiggle_stop handle_wiggle is_wiggle
  handle_operation-plain s c text p m = rw (m, p.no_stop, p.no_wiggle) refl

  view-logged : (s : App) (text : Bytes) → view (emit (logged (lit "CAN_TX") text) s) ≡ view s
  unfolding view
  view-logged s text = refl

  sent_view :
      (s : App) (id value d : ℕ)
      → (send_command env s id value d).1 ≡ true
      → view (send_command env s id value d).0
        ≡ record (view s) { on_bus = command_frame id value d ∷ (view s).on_bus }
  sent_view s id value d h = elim (send_command-cases env s id value d) [
    | inl (_, _, e) ↦ e
    | inr (e, _) ↦ absurd (cc (e, h))
  ]

  -- A socket that takes the frame is open.
  raw_can-taken :
      (s : App) (c : ℕ) (r : RawCan) {fd : ℕ}
      → r.id ≤ 0x7FF
      → s.can_fd ≡ some fd
      → env.write_ok s.calls ≡ true
      → (t : App) × (raw_can env s c (some r) ≡ some t) × (view t ≡ with_frame r (view s))
  unfolding raw_can
  raw_can-taken s c r h f w =
      let taken = send_command-taken env s r.id r.value r.duration_ms f w h in
      let after = (send_command env s r.id r.value r.duration_ms).0 in
      (
        send_text env (emit (logged (lit "CAN_TX") (raw_text r)) after) c (lit "Message sent"),
        rw taken refl,
        view-send_text env _ c _
            ∙ view-logged after (raw_text r)
            ∙ sent_view s r.id r.value r.duration_ms taken,
      )

  handle_hotfire-raw_text :
      (s : App) (c : ℕ) (r : RawCan) {fd : ℕ}
      → IsRaw r
      → r.id ≤ 0x7FF
      → s.can_fd ≡ some fd
      → env.write_ok s.calls ≡ true
      → view (handle_hotfire env hotfire s c (raw_text r)) ≡ with_frame r (view s)
  unfolding handle_hotfire handle_drown handle_fire handle_raw_can
  handle_hotfire-raw_text s c r k h f w =
      let p = raw_text-IsPlain r in
      let (t, e, v) = raw_can-taken s c r h f w in
      rw (p.no_drown, p.no_fire, parse_raw_can_fields-raw_text r k, e) v

  -- So in the state HOTFIRE.
  in_state :
      (state : AppState) (s : App) (c : ℕ) (r : RawCan) {fd : ℕ}
      → state ≡ hotfire
      → IsRaw r
      → r.id ≤ 0x7FF
      → s.can_fd ≡ some fd
      → env.write_ok s.calls ≡ true
      → view (handle_hotfire env state s c (raw_text r)) ≡ with_frame r (view s)
  in_state prechilling s c r hot k h f w = absurd (cc hot)
  in_state hotfire s c r hot k h f w = handle_hotfire-raw_text s c r k h f w

  allowed :
      (a b : Bool) (t u v : App) {w : View}
      → a ≡ false
      → b ≡ false
      → view v ≡ w
      → view (if a then t else if b then u else v) ≡ w
  allowed true b t u v h k e = absurd (cc h)
  allowed false true t u v h k e = absurd (cc k)
  allowed false false t u v h k e = e

  no_toggle :
      (s : App) (c : ℕ) (text : Bytes) → IsPlain text → handle_read_toggle env s c text ≡ none
  unfolding handle_read_toggle
  no_toggle s c text p = ground (arith, p.no_disable, p.no_enable)

  strip_can_prefix-plain : (text : Bytes) → IsPlain text → strip_can_prefix text ≡ text
  unfolding strip_can_prefix
  strip_can_prefix-plain text p = rw p.no_prefix refl

  handle_control-raw_text :
      (s : App) (c : ℕ) (r : RawCan)
      → env.malloc_ok s.calls ≡ true
      → handle_control env s c (strip_can_prefix (raw_text r))
        ≡ handle_hotfire env s.state (called s) c (raw_text r)
  handle_control-raw_text s c r m =
      let p = raw_text-IsPlain r in
      ap (handle_control env s c) (strip_can_prefix-plain (raw_text r) p)
      ∙ handle_control-plain s c (raw_text r) p
      ∙ handle_operation-plain s c (raw_text r) p m

  -- In a server that takes commands, in the state HOTFIRE, with memory for the copy of the text and
  -- an open socket that takes the next frame: the text of a raw command, whose numbers fit the parser
  -- and whose id is a standard one, puts the frame of its id, value and duration on the bus, and
  -- changes nothing else of the view.
  pub command_handle_text-raw_text :
      (s : App) (c : ℕ) (r : RawCan) {fd : ℕ}
      → s.config.testing_mode ≡ false
      → s.config.read_only ≡ false
      → s.state ≡ hotfire
      → env.malloc_ok s.calls ≡ true
      → s.can_fd ≡ some fd
      → env.write_ok (suc s.calls) ≡ true
      → IsRaw r
      → r.id ≤ 0x7FF
      → view (command_handle_text env s c (raw_text r)) ≡ with_frame r (view s)
  unfolding command_handle_text view
  command_handle_text-raw_text s c r a b hot m f w k h =
      rw (no_toggle s c (raw_text r) (raw_text-IsPlain r)) (
        allowed s.config.testing_mode s.config.read_only _ _ _ a b
          (ap view (handle_control-raw_text s c r m) ∙ in_state s.state (called s) c r hot k h f w))
