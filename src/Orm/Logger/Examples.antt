-- ===== src/Orm/Logger/Examples.antt =====
-- A statement of two milliseconds, with a threshold of one.
use goddd.Common.Text.{codes}
use goddd.Common.Int.{pos}
use goddd.Orm.Logger.{
  codes, level_warn, level_error, silent, new_logger, log_mode, set_level, other_failure,
  record_not_found, pos, trace,
}
use goddd.Common.{◌≡◌, some, none, refl}

slow_line :
    trace (pos 2_000_000) (some record_not_found) (new_logger (pos 1_000_000))
    ≡ some (record { level = level_warn; text = codes "gorm sql slow" })
unfolding trace new_logger
slow_line = refl

silent_error :
    trace (pos 5) (some other_failure) (log_mode silent (new_logger (pos 1_000_000)))
    ≡ some (record { level = level_error; text = codes "gorm error" })
unfolding trace log_mode
silent_error = refl

not_logged :
    trace (pos 2_000_000) (some other_failure) (set_level (pos 9) (new_logger (pos 1_000_000)))
    ≡ none
unfolding trace set_level
not_logged = refl
