-- ===== src/Hook/Timer/Examples.antt =====
-- Two calls of a timer, and the wait from one in the morning to two in the morning.
use goddd.Common.Int.{pos}
use goddd.Hook.Timer.{pos, next_time_tomorrow}
use goddd.Common.{◌≡◌, refl}

waits_from_one : next_time_tomorrow 2 0 0 3_600_000_000_000 ≡ pos 90_000_000_000_000
unfolding next_time_tomorrow
waits_from_one = refl
