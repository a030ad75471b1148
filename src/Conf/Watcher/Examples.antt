-- ===== src/Conf/Watcher/Examples.antt =====
-- A change that is taken over, and one that a callback refuses.
use goddd.Conf.Watcher.Reload.{watch_round-Changes, Changes}
use goddd.Conf.Watcher.{Callback, watch_round, watch_rounds, Watcher, Round}
use goddd.Common.{◌≡◌, [], ltb, ◌∷◌, some, none, false, refl, ℕ}

abbrev at_start : Watcher ℕ ℕ
at_start = record { last_mod = 5; current = record { runtime = 1; rest = 10 }; returned = false }

abbrev changed : Round ℕ ℕ
changed = record {
  done_at_tick = false;
  stat = some 6;
  done_in_pause = false;
  stat_again = some 7;
  parsed = some (record { runtime = 9; rest = 20 });
}

-- A callback that refuses large values.
abbrev small : Callback ℕ ℕ
small = λ old new. ltb 30 new.rest

watch_round-Changes_example :
    Changes (small ∷ []) changed at_start (watch_round (small ∷ []) changed at_start)
watch_round-Changes_example = watch_round-Changes (small ∷ []) changed at_start

taken_over : (watch_round (small ∷ []) changed at_start).current ≡ record { runtime = 1; rest = 20 }
unfolding watch_round
taken_over = refl

-- A file that does not parse is not read again while its time stays.
abbrev malformed : Round ℕ ℕ
malformed = record changed { parsed = none }

abbrev mended : Round ℕ ℕ
mended = record changed { stat = some 7 }

not_again : (watch_rounds (small ∷ []) (malformed ∷ mended ∷ []) at_start).current.rest ≡ 10
unfolding watch_rounds
not_again = refl
