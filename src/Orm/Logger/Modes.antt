-- ===== src/Orm/Logger/Modes.antt =====
-- What the mode of gorm changes of the log.
use goddd.Common.Text.{codes}
use goddd.Common.Int.{leb_ℤ, pos, ltb_ℤ, ℤ}
use goddd.Orm.Logger.{
  other_level, up_to_info, up_to_warn, only_error, silent, level_warn, level_debug, codes,
  level_error, is_reported, Failure, LogLevel, ℤ, at_level, new_logger, log_mode, trace,
}
use goddd.Common.{arith, ◌&&◌, not, if◌then◌else◌, ◌≡◌, Option, some, none}

-- In whichever mode a new logger is put, the silent one included, and however long the statement took: an
-- error other than ErrRecordNotFound and ErrDuplicatedKey is logged as an error. A statement
-- without such an error is logged as slow, if the threshold is positive and it took longer, but not
-- in the modes for errors only; and if it was not slow, it is logged at the level of debug.
pub trace-log_mode :
    (slow elapsed : ℤ) (mode : LogLevel) (err : Option Failure)
    → trace elapsed err (log_mode mode (new_logger slow)) ≡ (
        if is_reported err
        then some (record { level = level_error; text = codes "gorm error" })
        else if not (ltb_ℤ slow elapsed && ltb_ℤ (pos 0) slow)
        then some (record { level = level_debug; text = codes "gorm trace" })
        else if leb_ℤ (log_mode mode (new_logger slow)).log_level level_warn
        then some (record { level = level_warn; text = codes "gorm sql slow" })
        else none)
unfolding trace log_mode new_logger at_level
trace-log_mode slow elapsed silent err = ground arith
trace-log_mode slow elapsed only_error err = ground arith
trace-log_mode slow elapsed up_to_warn err = ground arith
trace-log_mode slow elapsed up_to_info err = ground arith
trace-log_mode slow elapsed other_level err = ground arith
