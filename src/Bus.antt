-- ===== src/Bus.antt =====
-- src/can/can_bus.c: frames to and from the CAN socket, and the table of received values.
pub mod Frames
pub mod Received
pub mod Report
use static_fire.Base.Int.{ℤ, pos, is_negative, to_ℕ}
use static_fire.Base.{
  Bytes, ℕ, zero, suc, ◌+◌, ◌-◌, ◌*◌, ◌/◌, ◌%◌, ◌^◌, Bool, true, false, not, ◌||◌, Option, none,
  some, List, [], ◌∷◌, ◌++◌, ltb, leb, ◌==◌, if◌then◌else◌, length, take,
}
use static_fire.Text.Print.{hex_pad}
use static_fire.Text.{lit}
use static_fire.App.{App, CanFrame, Env, can_write, logged, emit, called, can_id_count}

-- The frame that `can_bus_send_command` writes: two 16-bit numbers, low byte first, and four zeros.
unfoldable pub command_frame : ℕ → ℕ → ℕ → CanFrame
command_frame can_id value duration_ms = record {
  can_id = can_id;
  can_dlc = 8;
  payload =
      value % 256
      ∷ value / 256 % 256
      ∷ duration_ms % 256
      ∷ duration_ms / 256 % 256
      ∷ 0
      ∷ 0
      ∷ 0
      ∷ 0
      ∷ [];
}

module _ (env : Env) where
  -- `fd` is an argument in the source; every caller gives `app->can_fd`.
  attempt : App → Option ℕ → CanFrame → App × Bool
  attempt s none frame = (s, false)
  attempt s (some fd) frame =
      (emit (can_write frame (env.write_ok s.calls)) (called s), env.write_ok s.calls)

  unfoldable pub send_command : App → ℕ → ℕ → ℕ → App × Bool
  unfolding attempt command_frame
  send_command s can_id value duration_ms =
      if ltb 0x7FF can_id
      then (s, false)
      else attempt s s.can_fd (command_frame can_id value duration_ms)

-- `data[0] | (data[1] << 8)`, of bytes.
unfoldable pub low_word : List ℕ → ℕ
low_word (a ∷ b ∷ _) = a + 256 * b
low_word _ = 0

unfoldable pub frame_value : CanFrame → ℕ
unfolding low_word
frame_value f = if leb 2 f.can_dlc then low_word f.payload else 0

-- `can_id & (CAN_ERR_FLAG | CAN_RTR_FLAG | CAN_EFF_FLAG)`: the three highest bits of 32.
unfoldable pub is_special : CanFrame → Bool
is_special f = not (f.can_id / 2 ^ 29 % 8 == 0)

abbrev pub update {ℓ} : {A : Type ℓ} → (ℕ → A) → ℕ → A → ℕ → A
update table id new k = if id == k then new else table k

-- "%03x#%04x"
unfoldable pub entry_text : ℕ → ℕ → Bytes
unfolding hex_pad
entry_text id value = hex_pad 3 id ++ (b'#' ∷ hex_pad 4 value)

unfoldable pub store_rx : App → CanFrame → App
unfolding is_special frame_value
store_rx s frame =
    let id = frame.can_id % 0x800 in
    let value = frame_value frame in
    if is_special frame
    then s
    else emit (logged (lit "CAN_RX") (entry_text id value)) (record s {
      can_values = update s.can_values id (pos value);
      can_dirty = update s.can_dirty id true;
    })

-- The loop of `can_bus_format_dirty`, over `rounds` ids from `id` on.
unfoldable pub format_from : ℕ → ℕ → ℕ → App → Bytes → Bytes × App
format_from zero id capacity s buffer = (buffer, s)
format_from (suc rounds) id capacity s buffer =
    let written = entry_text id (to_ℕ (s.can_values id) % 2 ^ 16) ++ (b'|' ∷ []) in
    let skip = format_from rounds (id + 1) capacity s buffer in
    let put =
      format_from rounds (id + 1) capacity (record s { can_dirty = update s.can_dirty id false })
        (buffer ++ written) in
    if not (s.can_dirty id) || is_negative (s.can_values id)
    then skip
    else if leb (capacity - length buffer) (length written)
    then (buffer, s)
    else put

-- The last separator is taken off. What is returned is the text, whose length the source returns.
unfoldable pub format_dirty : App → ℕ → Bytes × App
unfolding format_from
format_dirty s capacity =
    let (buffer, s') = format_from can_id_count 0 capacity s [] in
    if capacity == 0 then ([], s) else (take (length buffer - 1) buffer, s')
