-- ===== src/Logger/Cyclic.antt =====
-- src/util/logger.c: writing in place, over the oldest bytes of the file.
pub mod Ring
pub mod Stored
use static_fire.Base.{
  Bytes, ℕ, zero, suc, ◌+◌, ◌-◌, ◌≤◌, ◌<◌, Bool, true, false, not, ◌&&◌, ◌||◌, Option, none, some,
  List, [], ◌∷◌, ltb, leb, ◌==◌, if◌then◌else◌, length, take,
}
use static_fire.Logger.{Logger, Outside, called, write_at, min_cyclic_capacity}

-- The capacity is the size of the file, but not less than the least one.
unfoldable pub with_capacity : ℕ → Logger → Logger
with_capacity size l =
    let cap = if ltb size min_cyclic_capacity then min_cyclic_capacity else size in
    record l {
      cyclic_capacity_bytes = cap;
      cyclic_write_offset = if leb cap l.cyclic_write_offset then 0 else l.cyclic_write_offset;
    }

-- Room for `len` bytes: a capacity of at least as many, and an offset with that room behind it.
unfoldable pub reserve : ℕ → Logger → Logger
reserve len l =
    let cap = if ltb l.cyclic_capacity_bytes len then len else l.cyclic_capacity_bytes in
    record l {
      cyclic_capacity_bytes = cap;
      cyclic_write_offset =
          if ltb cap (l.cyclic_write_offset + len) then 0 else l.cyclic_write_offset;
    }

unfoldable pub advance : ℕ → Logger → Logger
advance len l =
    let offset = l.cyclic_write_offset + len in
    record l { cyclic_write_offset = if leb l.cyclic_capacity_bytes offset then 0 else offset }

module _ (out : Outside) where
  -- With the file open; the flag says that 0 is returned.
  unfoldable pub prepare_open : Option Bytes → Logger → Logger × Bool
  unfolding with_capacity
  prepare_open none l = (l, false)
  prepare_open (some file) l =
      if not (out.flush_ok l.calls)
      then (called l, false)
      else if not (out.fstat_ok (suc l.calls))
      then (called (called l), false)
      else (with_capacity (length file) (called (called l)), true)

  unfoldable pub prepare_cyclic_mode : Logger → Logger × Bool
  unfolding prepare_open
  prepare_cyclic_mode l = prepare_open l.fp l

  -- From `fseeko` on: what `fwrite` takes stands in the file also if it is not all.
  unfoldable pub put_bytes : Bytes → Bytes → Logger → Logger × Bool
  unfolding advance
  put_bytes file text l =
      let count = out.taken (suc l.calls) in
      let written = record (called (called l)) {
        fp = some (write_at l.cyclic_write_offset (take count text) file);
      } in
      if not (out.seek_ok l.calls)
      then (called l, false)
      else if ltb count (length text)
      then (written, false)
      else (called (advance (length text) written), out.flush_ok (suc (suc l.calls)))

  unfoldable pub put_reserved : Option Bytes → Bytes → Logger → Logger × Bool
  unfolding put_bytes reserve
  put_reserved none text l = (l, false)
  put_reserved (some file) text l = put_bytes file text (reserve (length text) l)

  unfoldable pub write_reserved : Bytes → Logger × Bool → Logger × Bool
  unfolding put_reserved
  write_reserved text (l, false) = (l, false)
  write_reserved text (l, true) = put_reserved l.fp text l

  -- The capacity is read first if there is none yet.
  unfoldable pub write_open : Option Bytes → Bytes → Logger → Logger × Bool
  unfolding prepare_cyclic_mode write_reserved
  write_open none text l = (l, false)
  write_open (some file) [] l = (l, true)
  write_open (some file) (c ∷ text) l =
      write_reserved (c ∷ text)
        (if l.cyclic_capacity_bytes == 0 then prepare_cyclic_mode l else (l, true))

  unfoldable pub write_cyclic_bytes : Bytes → Logger → Logger × Bool
  unfolding write_open
  write_cyclic_bytes text l = write_open l.fp text l
