-- ===== src/Logger.antt =====
-- src/util/logger.c: the log file, written at its end or, on a full disk, over and over in place.
pub mod Directory
pub mod Oldest
pub mod Cyclic
pub mod Maintenance
pub mod Transcript
pub mod Feed
use static_fire.Base.{
  Bytes, ℕ, zero, suc, ◌+◌, ◌*◌, ◌/◌, ◌%◌, ◌^◌, Bool, true, false, not, ◌&&◌, ◌||◌, Option, none,
  some, List, [], ◌∷◌, ◌++◌, ltb, leb, ◌==◌, if◌then◌else◌, length, take,
}
use static_fire.Base.Int.{ℤ, pos, negsuc}
use static_fire.Text.{lit, equal, starts_with, is_empty}
use static_fire.Text.Print.{decimal}

abbrev pub path_max : ℕ
path_max = 4096

abbrev pub min_free_percent : ℕ
min_free_percent = 20

abbrev pub maintenance_interval_ms : ℕ
maintenance_interval_ms = 5000

abbrev pub min_cyclic_capacity : ℕ
min_cyclic_capacity = 4096

-- What `stat` says of a file: whether it is a regular one, and when it was changed.
pub record Stat : Type 0 where
  pub regular : Bool
  pub sec : ℕ
  pub nsec : ℕ

-- An entry of the directory; `stat` may fail.
pub record Dirent : Type 0 where
  pub name : Bytes
  pub stat : Option Stat

-- `logger_t`, and the disk. `fp` is the contents of the open file. No operation makes the two offsets
-- negative. `entries` is what the log directory holds; the entry of the open file, which each scan
-- skips, may be left out. `made` and `unlinked` are the paths given to `mkdir` and taken by `unlink`,
-- the newest first.
pub record Logger : Type 0 where
  pub enabled : Bool
  pub fp : Option Bytes
  pub log_dir : Bytes
  pub current_path : Bytes
  pub next_maintenance_ms : ℕ
  pub cyclic_mode : Bool
  pub cyclic_write_offset : ℕ
  pub cyclic_capacity_bytes : ℕ
  pub entries : List Dirent
  pub made : List Bytes
  pub unlinked : List Bytes
  pub calls : ℕ

-- The results of the outside calls, each at the number that the call has. `mkdir_ok` is true also if
-- the directory is there. `statvfs` gives the blocks available and all blocks; `scan_ok` says that
-- the directory can be opened and read to its end; `taken` is how many bytes a write takes;
-- `file_name` is the name with the local time in it.
pub record Outside : Type 0 where
  pub mkdir_ok : ℕ → Bool
  pub statvfs : ℕ → Option (ℕ × ℕ)
  pub scan_ok : ℕ → Bool
  pub unlink_ok : ℕ → Bool
  pub fopen_ok : ℕ → Bool
  pub seek_ok : ℕ → Bool
  pub flush_ok : ℕ → Bool
  pub fstat_ok : ℕ → Bool
  pub malloc_ok : ℕ → Bool
  pub taken : ℕ → ℕ
  pub monotonic_ms : ℕ → ℕ
  pub realtime_ns : ℕ → ℕ
  pub file_name : ℕ → Option Bytes

abbrev pub called : Logger → Logger
called l = record l { calls = suc l.calls }

-- "%s%s%s": a slash between, unless the directory ends with one.
unfoldable pub ends_with_slash : Bytes → Bool
ends_with_slash [] = false
ends_with_slash (c ∷ []) = c == b'/'
ends_with_slash (c ∷ d ∷ s) = ends_with_slash (d ∷ s)

unfoldable pub join : Bytes → Bytes → Bytes
unfolding ends_with_slash
join dir name = dir ++ ((if ends_with_slash dir then [] else b'/' ∷ []) ++ name)

-- Writing bytes at an offset of a file; a gap is filled with zeros.
unfoldable pub write_at : ℕ → Bytes → Bytes → Bytes
write_at zero [] file = file
write_at zero (b ∷ bs) [] = b ∷ write_at zero bs []
write_at zero (b ∷ bs) (c ∷ file) = b ∷ write_at zero bs file
write_at (suc at) [] file = file
write_at (suc at) (b ∷ bs) [] = 0 ∷ write_at at (b ∷ bs) []
write_at (suc at) (b ∷ bs) (c ∷ file) = c ∷ write_at at (b ∷ bs) file

unfoldable pub leave_cyclic : Logger → Logger
leave_cyclic l = record l {
  cyclic_mode = false;
  cyclic_capacity_bytes = 0;
  cyclic_write_offset = 0;
}

-- "%llu,%s,"
unfoldable pub line_header : ℕ → Bytes → Bytes
line_header time kind = decimal time ++ (b',' ∷ (kind ++ (b',' ∷ [])))
