-- ===== src/Orm/Logger.antt =====
-- pkg/orm/log.go: what is logged of a statement. The levels are those of log/slog, the modes those of
-- gorm's logger. What slog itself leaves out by its level is not modelled.
pub mod Modes
mod Examples
use goddd.Common.Text.{codes, Bytes}
use goddd.Common.Int.{ltb_ℤ, leb_ℤ, pos, negsuc, ℤ}
use goddd.Common.{◌&&◌, Bool, if◌then◌else◌, Option, some, none, false, true, ℕ}

abbrev pub level_debug : ℤ
level_debug = negsuc 3

abbrev pub level_info : ℤ
level_info = pos 0

abbrev pub level_warn : ℤ
level_warn = pos 4

abbrev pub level_error : ℤ
level_error = pos 8

pub data LogLevel : Type 0 where
  silent : LogLevel
  only_error : LogLevel
  up_to_warn : LogLevel
  up_to_info : LogLevel
  other_level : LogLevel

-- `slow` is in nanoseconds.
pub record Logger : Type 0 where
  pub slow : ℤ
  pub log_level : ℤ

pub new_logger : ℤ → Logger
new_logger slow = record { slow = slow; log_level = level_debug }

pub set_level : ℤ → Logger → Logger
set_level level l = record l { log_level = level }

-- `LogMode`: the logger that it returns is a copy.
pub log_mode : LogLevel → Logger → Logger
log_mode silent l = record l { log_level = level_error }
log_mode only_error l = record l { log_level = level_error }
log_mode up_to_warn l = record l { log_level = level_warn }
log_mode up_to_info l = record l { log_level = level_info }
log_mode other_level l = l

-- The lines that slog is given, each by its level and its text.
pub record Line : Type 0 where
  pub level : ℤ
  pub text : Bytes

-- `Error`, `Warn` and `Info`.
pub at_level : ℤ → Bytes → Logger → Option Line
at_level level msg l =
    if leb_ℤ l.log_level level then some (record { level = level; text = msg }) else none

-- An error that a statement may end with, as `errors.Is` sees it.
pub data Failure : Type 0 where
  record_not_found : Failure
  duplicated_key : Failure
  other_failure : Failure

pub is_reported : Option Failure → Bool
is_reported none = false
is_reported (some record_not_found) = false
is_reported (some duplicated_key) = false
is_reported (some other_failure) = true

-- `Trace`, of a statement that took `elapsed` nanoseconds.
pub trace : ℤ → Option Failure → Logger → Option Line
unfolding at_level is_reported
trace elapsed err l =
    if is_reported err
    then at_level level_error (codes "gorm error") l
    else if ltb_ℤ l.slow elapsed && ltb_ℤ (pos 0) l.slow
    then at_level level_warn (codes "gorm sql slow") l
    else some (record { level = level_debug; text = codes "gorm trace" })
