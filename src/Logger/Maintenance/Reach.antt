-- ===== src/Logger/Maintenance/Reach.antt =====
-- src/util/logger.c: the log as a transition system.
use static_fire.Base.{Bytes, Bool, true, Option, some, ◌≡◌, subst}
use static_fire.Logger.{Logger, Outside}
use static_fire.Logger.Maintenance.{logger_open, logger_write, logger_printf}
use static_fire.Logger.Maintenance.Runs.{Ends}
use static_fire.Logger.Maintenance.Lines.{logger_write_total, logger_printf_total}
use static_fire.Logger.Maintenance.Opening.{IsFresh, logger_open-Opened}
use static_fire.Logger.Maintenance.Safety.{IsLog}

-- The logs that the operations can lead to, from an opening that succeeds on.
pub data LogReach (out : Outside) : Logger → Type 0 where
  opened :
      (on : Bool) (dir : Bytes) (l : Logger) {t : Logger}
      → IsFresh l
      → logger_open out on dir l ≡ some (t, true)
      → LogReach out t
  wrote :
      (kind text : Bytes) {l t : Logger}
      → LogReach out l
      → logger_write out kind text l ≡ some t
      → LogReach out t
  printed :
      (kind text : Bytes) {l t : Logger}
      → LogReach out l
      → logger_printf out kind text l ≡ some t
      → LogReach out t

Ends-IsLog : {o : Option Logger} {t : Logger} → Ends o → o ≡ some t → IsLog t
Ends-IsLog (s, e, x) h = let same : s ≡ _ = cc (e, h) in subst IsLog same x

-- From an opening that succeeds on, after any lines and on any disk: where a capacity is set
-- the offset lies inside it and the file does not reach behind it, without one the offset is 0, and each path that
-- was deleted is that of a log file in the directory of the log, but not of the open one.
pub LogReach-IsLog : (out : Outside) {l : Logger} → LogReach out l → IsLog l
LogReach-IsLog out (opened on dir l {t} f e) =
    let x = logger_open-Opened out on dir l f in
    let same : x.log ≡ t = cc (x.ends, e) in subst IsLog same x.well_formed
LogReach-IsLog out (wrote kind text {l} r e) =
    Ends-IsLog (logger_write_total out kind text l (LogReach-IsLog out r)) e
LogReach-IsLog out (printed kind text {l} r e) =
    Ends-IsLog (logger_printf_total out kind text l (LogReach-IsLog out r)) e
