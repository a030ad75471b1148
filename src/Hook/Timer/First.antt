-- ===== src/Hook/Timer/First.antt =====
-- The first wait, and the timers of the two packages.
use goddd.Conc.Group.{fires, is_done, Signal, timer}
use goddd.Common.Int.{◌-ℤ◌, ◌+ℤ◌, ℤ, pos}
use goddd.Hook.Timer.{
  clock, day, pos, ℤ, on_day_of, next_time_with_first, use_timer, calls, next_time_tomorrow,
}
use goddd.Common.{◌∙◌, arith, [], ◌*◌, ◌/◌, ap, ◌+◌, ◌≡◌, List, ◌∷◌, false, true, refl, ℕ}

calls-timer :
    {S : Type 0} (first_wait every wait : ℤ) (s : S) (ss : List Signal)
    → calls (next_time_with_first first_wait (λ (r : S). (r, every))) wait (false, s) ss
      ≡ timer wait every ss
unfolding calls next_time_with_first timer
calls-timer first_wait every wait s [] = refl
calls-timer first_wait every wait s (is_done ∷ ss) = refl
calls-timer first_wait every wait s (fires ∷ ss) =
    ap (◌∷◌ wait) (calls-timer first_wait every every s ss)

-- `Timer` of pkg/conc is `UseTimer` of pkg/hook with the closure of `NextTimeWithFirst` over a constant:
-- whatever the context and the timer do, both make the same calls after the same waits.
pub use_timer-timer :
    {S : Type 0} (first_wait every : ℤ) (s : S) (ss : List Signal)
    → use_timer (next_time_with_first first_wait (λ (r : S). (r, every))) (true, s) ss
      ≡ timer first_wait every ss
unfolding use_timer next_time_with_first
use_timer-timer first_wait every s ss = calls-timer first_wait every first_wait s ss

next_day : (time : ℕ) → (time + day) / day ≡ time / day + 1
next_day time = omega arith

a_day_late : (n a d : ℕ) → pos n +ℤ (pos (a + d) -ℤ pos (n + d)) ≡ pos a
a_day_late n a d = ground arith

one_more : (q d c : ℕ) → (q + 1) * d + c ≡ q * d + c + d
one_more q d c = ground arith

-- After the wait of `NextTimeTomorrow` it is the given time on the next day.
pub next_time_tomorrow_lem :
    (hour minute second now : ℕ)
    → pos now +ℤ next_time_tomorrow hour minute second now
      ≡ pos (on_day_of (now + day) (clock hour minute second))
unfolding next_time_tomorrow on_day_of
next_time_tomorrow_lem hour minute second now =
    ap (λ t. pos now +ℤ (pos t -ℤ pos (now + day)))
      (ap (λ q. q * day + clock hour minute second) (next_day (now + day))
        ∙ one_more ((now + day) / day) day (clock hour minute second))
    ∙ a_day_late now ((now + day) / day * day + clock hour minute second) day
