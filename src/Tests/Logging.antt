-- ===== src/Tests/Logging.antt =====
-- Runs of the logger, and what the theorems say of them.
use static_fire.Base.{
  ℕ, Bytes, ◌++◌, ◌≤◌, false, Bool, true, Option, none, some, List, [], ◌∷◌, ◌≡◌, refl, arith, inr,
}
use static_fire.Tests.Worlds.{disk}
use static_fire.Boot.Main.{zero_logger}
use static_fire.Logger.Cyclic.Ring.{IsRing, write_cyclic_bytes-IsRing}
use static_fire.Logger.Cyclic.Stored.{HasPiece, write_cyclic_bytes-HasPiece}
use static_fire.Logger.Cyclic.{write_cyclic_bytes}
use static_fire.Logger.Directory.{
  Made, parents, ensure_directory_exists, ensure_directory_exists-Made,
}
use static_fire.Logger.Maintenance.Runs.{Ends}
use static_fire.Logger.Maintenance.Lines.{logger_write_total}
use static_fire.Logger.Feed.{feed, IsTranscript, feed-IsTranscript}
use static_fire.Logger.Transcript.{IsNormal, HasRoom}
use static_fire.App.{Event, logged, sent}
use static_fire.Text.Print.{decimal, digits}
use static_fire.Logger.{line_header, min_free_percent}
use static_fire.Logger.Maintenance.{free_percent}
use static_fire.Logger.Maintenance.Opening.{IsFresh, Opened, logger_open-Opened}
use static_fire.Logger.Maintenance.Reach.{LogReach-IsLog, opened}
use static_fire.Logger.Maintenance.Safety.{IsLog}
use static_fire.Logger.Maintenance.{logger_open, logger_write}
use static_fire.Logger.Oldest.{
  candidate, find_oldest_deletable_log, IsOldest, scan_oldest, scan_oldest-IsOldest,
}
use static_fire.Logger.{join, Dirent, Logger, Outside}
use static_fire.Text.{lit, starts_with, equal}

-- Ten percent of the disk are free.
abbrev full_disk : Outside
full_disk = disk 10 (lit "simple_ws_2.csv")

-- Two old logs, the second changed before the first, and another file.
abbrev old_logs : List Dirent
old_logs =
    record {
      name = lit "simple_ws_1.csv";
      stat = some (record { regular = true; sec = 9; nsec = 5 });
    }
    ∷ record {
      name = lit "simple_ws_0.csv";
      stat = some (record { regular = true; sec = 9; nsec = 4 });
    }
    ∷ record { name = lit "notes"; stat = some (record { regular = true; sec = 1; nsec = 0 }) }
    ∷ []

abbrev fresh : Logger
fresh = zero_logger old_logs

fresh-IsFresh : IsFresh fresh
fresh-IsFresh = refl

logger_open-Opened_example : Opened (logger_open full_disk true (lit "/tmp") fresh)
logger_open-Opened_example = logger_open-Opened full_disk true (lit "/tmp") fresh fresh-IsFresh

-- A log that is written in place, with a capacity of a page.
abbrev page : Logger
page = record fresh {
  enabled = true;
  fp = some [];
  cyclic_mode = true;
  cyclic_write_offset = 4090;
  cyclic_capacity_bytes = 4096;
}

page-IsRing : IsRing page
page-IsRing = record { bounds = inr (omega arith); inside = inr (omega arith) }

page-IsLog : IsLog page
page-IsLog = record { ring = page-IsRing; normal = λ e. absurd (cc e); deleted = tt }

write_cyclic_bytes-IsRing_example : IsRing (write_cyclic_bytes full_disk (lit "abcdefgh") page).0
write_cyclic_bytes-IsRing_example =
    write_cyclic_bytes-IsRing full_disk (lit "abcdefgh") page page-IsRing

page-written : (write_cyclic_bytes full_disk (1 ∷ 2 ∷ []) page).1 ≡ true
unfolding write_cyclic_bytes
page-written = refl

write_cyclic_bytes-HasPiece_example :
    HasPiece (1 ∷ 2 ∷ []) (write_cyclic_bytes full_disk (1 ∷ 2 ∷ []) page).0
write_cyclic_bytes-HasPiece_example =
    write_cyclic_bytes-HasPiece full_disk 1 (2 ∷ []) page page-written

logger_write_total_example : Ends (logger_write full_disk (lit "WS_RX") (lit "HELP") page)
logger_write_total_example = logger_write_total full_disk (lit "WS_RX") (lit "HELP") page page-IsLog

-- Half of the disk is free, and a write takes a thousand bytes.
abbrev roomy : Outside
roomy = disk 50 (lit "a.log")

half-free : (percent : ℕ) → ◌≡◌ {A = Option ℕ} (some 50) (some percent) → min_free_percent ≤ percent
half-free percent e = let same : 50 ≡ percent = cc e in omega (arith, same)

roomy-HasRoom : HasRoom roomy 100
unfolding free_percent
roomy-HasRoom = record {
  seeks = λ n. refl;
  takes = λ n. omega arith;
  free = λ n {percent} e. half-free percent e;
}

-- A frame that was received, behind a text of a client that was answered.
abbrev happened : List Event
happened =
    logged (lit "CAN_RX") (lit "101#002a")
    ∷ sent 7 (lit "Invalid command")
    ∷ logged (lit "WS_RX") (lit "HELP")
    ∷ []

abbrev started_log : Logger
started_log = record page { fp = some (lit "old"); cyclic_mode = false }

feed-IsTranscript_example :
    (t : Logger) × (b : Bytes) × (feed roomy happened started_log ≡ some t)
    × IsNormal t (lit "old" ++ b)
    × IsTranscript roomy happened b
unfolding lit line_header decimal digits
feed-IsTranscript_example =
    feed-IsTranscript roomy roomy-HasRoom happened started_log
      (
        (omega arith, omega arith, λ n. omega arith),
        (tt, ((omega arith, omega arith, λ n. omega arith), tt)),
      )
      (record { enabled = refl; open_file = refl; at_end = refl })

scan_oldest-IsOldest_example : IsOldest fresh old_logs (scan_oldest fresh old_logs none)
scan_oldest-IsOldest_example = scan_oldest-IsOldest fresh old_logs

ensure_directory_exists-Made_example :
    Made
      (parents (b'/' ∷ []) (lit "var/log"))
      fresh
      (ensure_directory_exists full_disk (b'/' ∷ lit "var/log") fresh)
unfolding lit
ensure_directory_exists-Made_example =
    ensure_directory_exists-Made full_disk b'/' (lit "var/log") fresh (omega arith)

-- What opening on the full disk leaves: both old logs are deleted, and the log is written in place.
abbrev after_open : Option (Logger × Bool) → Logger
after_open none = fresh
after_open (some (l, ok)) = l

abbrev crowded : Logger
crowded = after_open (logger_open full_disk true (lit "/tmp") fresh)

crowded-opened : logger_open full_disk true (lit "/tmp") fresh ≡ some (crowded, true)
unfolding logger_open ensure_directory_exists lit join find_oldest_deletable_log candidate
    starts_with equal
crowded-opened = refl

LogReach-IsLog_example : IsLog crowded
LogReach-IsLog_example =
    LogReach-IsLog full_disk (opened true (lit "/tmp") fresh fresh-IsFresh crowded-opened)
