-- ===== src/Queue/Examples.antt =====
-- Runs of the ring and instances of its theorems.
use goddd.Common.{ℕ, ◌≡◌, refl, true, List, [], ◌∷◌, none, some, arith}
use goddd.Queue.{CirQueue, new, push, push_all, range}
use goddd.Queue.Refine.{keep_newest, range-push_all}

abbrev pushes : List ℕ
pushes = 1 ∷ 2 ∷ 3 ∷ 4 ∷ 5 ∷ []

abbrev wrapped : CirQueue ℕ
wrapped = record { over = true; idx = 2; size = 3; items = 4 ∷ 5 ∷ 3 ∷ [] }

push_all_run : push_all (new 0 3) pushes ≡ some wrapped
unfolding push_all new
push_all_run = refl

range_run : range wrapped ≡ some (3 ∷ 4 ∷ 5 ∷ [])
unfolding range
range_run = refl

-- A queue of no places panics at its first push.
push_empty_storage : push {A = ℕ} (new 0 0) 1 ≡ none
unfolding push new
push_empty_storage = refl

range-push_all_example :
    (c : CirQueue ℕ) × (push_all (new 0 3) pushes ≡ some c)
    × (range c ≡ some (keep_newest 3 pushes))
range-push_all_example = range-push_all 0 3 pushes (omega arith) (omega arith)
