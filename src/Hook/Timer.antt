-- ===== src/Hook/Timer.antt =====
-- pkg/hook/timer.go: a timer that is set anew before each call. What its loop waits for is a list of
-- signals. The closure that says how long to wait has a state. A local time is in nanoseconds
-- since the midnight of some day, and each day has 24 hours.
pub mod First
mod Examples
use goddd.Conc.Group.{fires, is_done, Signal}
use goddd.Common.Int.{◌-ℤ◌, pos, ℤ}
use goddd.Common.{[], List, ◌+◌, Bool, ◌*◌, ◌/◌, ◌∷◌, false, true, ℕ}

module _ {S : Type 0} where
  -- The calls of `fn` from the time `wait` on, each with the time that was waited for before it.
  pub calls : (S → S × ℤ) → ℤ → S → List Signal → List ℤ
  calls next_time wait s [] = []
  calls next_time wait s (is_done ∷ ss) = []
  calls next_time wait s (fires ∷ ss) =
      let (s', next) = next_time s in wait ∷ calls next_time next s' ss

  -- `UseTimer`
  pub use_timer : (S → S × ℤ) → S → List Signal → List ℤ
  unfolding calls
  use_timer next_time s ss = let (s', wait) = next_time s in calls next_time wait s' ss

  -- `NextTimeWithFirst`: its variable `isFirst` is the Boolean of the state.
  pub next_time_with_first : ℤ → (S → S × ℤ) → Bool × S → (Bool × S) × ℤ
  next_time_with_first first_wait fn (true, s) = ((false, s), first_wait)
  next_time_with_first first_wait fn (false, s) = let (s', wait) = fn s in ((false, s'), wait)

abbrev pub day : ℕ
day = 86_400_000_000_000

-- `time.Date` on the day that `time` falls on.
pub on_day_of : ℕ → ℕ → ℕ
on_day_of time since_midnight = (time / day) * day + since_midnight

abbrev pub clock : ℕ → ℕ → ℕ → ℕ
clock hour minute second = ((hour * 60 + minute) * 60 + second) * 1_000_000_000

-- `NextTimeTomorrow`: both times are a day late.
pub next_time_tomorrow : ℕ → ℕ → ℕ → ℕ → ℤ
unfolding on_day_of
next_time_tomorrow hour minute second time_now =
    let now = time_now + day in
    let tomorrow = now + day in pos (on_day_of tomorrow (clock hour minute second)) -ℤ pos now
