-- ===== src/Conc/Group/Examples.antt =====
-- Two tasks, one of which panics.
use goddd.Common.Int.{pos}
use goddd.Conc.Group.{
  calls_wait, got_error, is_done, returns_wait, returns, got_nil, selects, fires, panics, ends,
  cancels, new_group, runs, pos, Action, run, default_timer,
}
use goddd.Conc.Group.Wait.{
  run-new_group, run-got_nil, run-then_waits, HadEnded, then_waits, IsCounted,
}
use goddd.Common.{[], ◌≡◌, List, ◌∷◌, false, refl, ℕ}

-- A task is started and ends with a panic before the second one is started.
abbrev two_tasks : List (Action ℕ)
two_tasks = runs ∷ calls_wait ∷ ends (panics 7) ∷ returns_wait ∷ selects false ∷ runs ∷ []

run-two_tasks : (run two_tasks new_group).waiter ≡ got_nil
unfolding run new_group
run-two_tasks = refl

run-new_group_example : IsCounted (run two_tasks new_group)
run-new_group_example = run-new_group two_tasks

run-got_nil_example : HadEnded two_tasks
unfolding run new_group
run-got_nil_example = run-got_nil two_tasks refl

-- A waiter that the context stopped.
run_cancelled :
    (run {Err = ℕ}
      (runs ∷ calls_wait ∷ cancels ∷ selects false ∷ ends returns ∷ [])
      new_group).waiter
    ≡ got_error
unfolding run new_group
run_cancelled = refl

run-then_waits_example :
    (run
      (then_waits (panics 7 ∷ returns ∷ []) false)
      (run {Err = ℕ} (runs ∷ calls_wait ∷ runs ∷ []) new_group)).waiter
    ≡ got_nil
unfolding run new_group
run-then_waits_example =
    run-then_waits {Err = ℕ} (runs ∷ calls_wait ∷ runs ∷ []) (panics 7 ∷ returns ∷ []) false refl
      refl refl

calls_default_timer :
    default_timer (pos 60) (fires ∷ fires ∷ is_done ∷ fires ∷ []) ≡ pos 3_000_000_000 ∷ pos 60 ∷ []
unfolding default_timer
calls_default_timer = refl
