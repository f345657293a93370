-- ===== src/Logger/Maintenance.antt =====
-- src/util/logger.c: keeping a part of the disk free, opening and closing the log, writing a line.
pub mod Safety
pub mod Total
pub mod Runs
pub mod Lines
pub mod Opening
pub mod Reach
use static_fire.Base.{
  Bytes, ℕ, zero, suc, ◌+◌, ◌*◌, ◌/◌, ◌%◌, ◌^◌, Bool, true, false, not, ◌&&◌, ◌||◌, Option, none,
  some, List, [], ◌∷◌, ◌++◌, ltb, leb, ◌==◌, if◌then◌else◌, length, take,
}
use static_fire.Text.{equal, is_empty}
use static_fire.Logger.{
  Dirent, Logger, Outside, called, join, leave_cyclic, line_header, min_free_percent,
  maintenance_interval_ms, path_max,
}
use static_fire.Logger.Cyclic.{prepare_cyclic_mode, write_cyclic_bytes}
use static_fire.Logger.Directory.{ensure_directory_exists}
use static_fire.Logger.Oldest.{find_oldest_deletable_log}

-- The percentage, in `unsigned long long` and then `unsigned int`.
unfoldable pub free_percent : Option (ℕ × ℕ) → Option ℕ
free_percent none = none
free_percent (some (available, blocks)) =
    if blocks == 0 then some 100 else some (available * 100 % 2 ^ 64 / blocks % 2 ^ 32)

-- The directory behind `unlink`: its names are all different.
unfoldable pub without : Bytes → Bytes → List Dirent → List Dirent
without dir path [] = []
without dir path (e ∷ es) =
    let rest = without dir path es in if equal (join dir e.name) path then rest else e ∷ rest

unfoldable pub unlinked_path : Bytes → Logger → Logger
unfolding without
unlinked_path path l = record l {
  entries = without l.log_dir path l.entries;
  unlinked = path ∷ l.unlinked;
  calls = suc l.calls;
}

unfoldable pub is_open : Option Bytes → Bool
is_open none = false
is_open (some file) = true

module _ (out : Outside) where
  unfoldable pub get_free_percent : Logger → Logger × Option ℕ
  unfolding free_percent
  get_free_percent l = (called l, free_percent (out.statvfs l.calls))

  unfoldable pub enter_cyclic : Logger → Logger
  enter_cyclic l = (prepare_cyclic_mode out (record l { cyclic_mode = true })).0

  -- How a round goes on behind `unlink`: `none` ends the loop.
  unfoldable pub after_unlink : Logger → Option ℕ → Logger × Bool
  unfolding leave_cyclic
  after_unlink l none = (l, false)
  after_unlink l (some free) =
      if leb min_free_percent free then (leave_cyclic l, false) else (l, true)

  -- A round of the loop: the state, and whether there is another.
  unfoldable pub delete_found : Logger → Option (Option Bytes) → Logger × Bool
  unfolding enter_cyclic unlinked_path get_free_percent after_unlink
  delete_found l none = (l, false)
  delete_found l (some none) = (enter_cyclic l, false)
  delete_found l (some (some path)) =
      let (l', free) = get_free_percent (unlinked_path path l) in
      if out.unlink_ok l.calls then after_unlink l' free else (called l, false)

  unfoldable pub delete_oldest : Logger → Logger × Bool
  unfolding delete_found
  delete_oldest l = let (l', found) = find_oldest_deletable_log out l in delete_found l' found

  -- The loop; `none` means that the fuel ran out.
  unfoldable pub delete_logs : ℕ → Logger → Option Logger
  unfolding delete_oldest
  delete_logs zero l = none
  delete_logs (suc fuel) l =
      let again = delete_logs fuel (delete_oldest l).0 in
      if (delete_oldest l).1 then again else some (delete_oldest l).0

  unfoldable pub keep_free : Logger → Option ℕ → Option Logger
  unfolding delete_logs leave_cyclic
  keep_free l none = some l
  keep_free l (some free) =
      if leb min_free_percent free
      then some (leave_cyclic l)
      else delete_logs (suc (length l.entries)) l

  unfoldable pub run_maintenance : Logger → Option Logger
  unfolding keep_free get_free_percent
  run_maintenance l =
      let now = out.monotonic_ms l.calls in
      let due = record (called l) {
        next_maintenance_ms = (now + maintenance_interval_ms) % 2 ^ 64;
      } in
      let (l', free) = get_free_percent due in
      if ltb now l.next_maintenance_ms then some (called l) else keep_free l' free

  unfoldable pub maybe_run_maintenance : Logger → Option Logger
  unfolding run_maintenance is_open
  maybe_run_maintenance l =
      if not l.enabled || not (is_open l.fp) then some l else run_maintenance l

  -- One `fprintf`, `fwrite` or `fputc` at the end of the file, whose result is not looked at.
  unfoldable pub append_to : Option Bytes → Bytes → Logger → Logger
  append_to none text l = l
  append_to (some file) text l = record (called l) {
    fp = some (file ++ take (out.taken l.calls) text);
  }

  unfoldable pub append : Bytes → Logger → Logger
  unfolding append_to
  append text l = append_to l.fp text l

  unfoldable pub write_normal_line : Bytes → Bytes → Logger → Logger
  unfolding append line_header
  write_normal_line kind text l =
      let headed = append (line_header (out.realtime_ns (suc l.calls)) kind) (called (called l)) in
      let filled = if is_empty text then headed else append text headed in
      if not (out.seek_ok l.calls) then called l else append (b'\n' ∷ []) filled

  -- The header of a kind of at most a hundred bytes fits its buffer; all kinds in use have at most six.
  unfoldable pub write_cyclic_line : Bytes → Bytes → Logger → Logger
  unfolding line_header
  write_cyclic_line kind text l =
      let headed =
        (write_cyclic_bytes out (line_header (out.realtime_ns l.calls) kind) (called l)).0 in
      (write_cyclic_bytes out (b'\n' ∷ []) (write_cyclic_bytes out text headed).0).0

  unfoldable pub write_line : Bytes → Bytes → Logger → Logger
  unfolding write_normal_line write_cyclic_line
  write_line kind text l =
      if l.cyclic_mode then write_cyclic_line kind text l else write_normal_line kind text l

  unfoldable pub logger_write : Bytes → Bytes → Logger → Option Logger
  unfolding maybe_run_maintenance write_line
  logger_write kind text l = elim (maybe_run_maintenance l) [
    | none ↦ none
    | some l' ↦ some (if not l.enabled || not (is_open l.fp) then l else write_line kind text l')
  ]

  -- The same for a text that is printed; in place it is printed into memory first.
  unfoldable pub print_text : Bytes → Logger → Logger
  print_text [] l = l
  print_text (c ∷ text) l =
      if out.malloc_ok l.calls then (write_cyclic_bytes out (c ∷ text) (called l)).0 else called l

  unfoldable pub print_line : Bytes → Bytes → Logger → Logger
  unfolding print_text append line_header
  print_line kind text l =
      let headed =
        (write_cyclic_bytes out (line_header (out.realtime_ns l.calls) kind) (called l)).0 in
      let started = append (line_header (out.realtime_ns (suc l.calls)) kind) (called (called l)) in
      if l.cyclic_mode
      then (write_cyclic_bytes out (b'\n' ∷ []) (print_text text headed)).0
      else if not (out.seek_ok l.calls)
      then called l
      else append (b'\n' ∷ []) (append text started)

  unfoldable pub logger_printf : Bytes → Bytes → Logger → Option Logger
  unfolding maybe_run_maintenance print_line
  logger_printf kind text l = elim (maybe_run_maintenance l) [
    | none ↦ none
    | some l' ↦ some (if not l.enabled || not (is_open l.fp) then l else print_line kind text l')
  ]

  -- With the path of the file; the flag says that 0 is returned.
  unfoldable pub open_file : Bytes → Bytes → Logger → Option (Logger × Bool)
  unfolding maybe_run_maintenance
  open_file dir path l =
      let opened = record (called l) {
        fp = some [];
        log_dir = dir;
        current_path = path;
        next_maintenance_ms = 0;
        cyclic_mode = false;
        cyclic_capacity_bytes = 0;
        cyclic_write_offset = 0;
      } in
      if not (out.fopen_ok l.calls)
      then some (called l, false)
      else elim (maybe_run_maintenance opened) [ none ↦ none | some l' ↦ some (l', true) ]

  -- With the name of the file, if the time could be had and printed.
  unfoldable pub open_named : Bytes → Option Bytes → Logger → Option (Logger × Bool)
  unfolding open_file
  open_named dir none l = some (l, false)
  open_named dir (some name) l =
      if leb path_max (length (join dir name))
      then some (l, false)
      else open_file dir (join dir name) l

  unfoldable pub open_in : Bytes → Logger × Bool → Option (Logger × Bool)
  unfolding open_named
  open_in dir (l, false) = some (l, false)
  open_in dir (l, true) = open_named dir (out.file_name l.calls) (called l)

  -- `l` is the zeroed logger, before a disk with a directory.
  unfoldable pub logger_open : Bool → Bytes → Logger → Option (Logger × Bool)
  unfolding open_in
  logger_open false dir l = some (record l { enabled = false }, true)
  logger_open true dir l =
      open_in dir (ensure_directory_exists out dir (record l { enabled = true }))

unfoldable pub logger_close : Logger → Logger
logger_close l = record l { fp = none }
