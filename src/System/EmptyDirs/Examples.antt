-- ===== src/System/EmptyDirs/Examples.antt =====
-- The root 1 with the directories 2, which is empty, and 3, which is too old and is not looked into. The
-- parent of the root is 0.
use goddd.Common.Assoc.{erase, insert, lookup}
use goddd.System.EmptyDirs.Empty.Counted.{has, children}
use goddd.System.EmptyDirs.Empty.{AllEmpty}
use goddd.System.EmptyDirs.{nil_error, visit, initial, Visit, remove_empty_dirs, State}
use goddd.Common.Int.{pos, ℤ}
use goddd.System.EmptyDirs.Empty.Walked.{remove_empty_dirs-AllEmpty, IsWalk}
use goddd.Common.{
  arith, ◌||◌, [], ◌≡◌, ◌==◌, ℕ_discrete, Option, List, if◌then◌else◌, ◌∷◌, inr, inl, some, false,
  true, refl, ℕ,
}

abbrev up : ℕ → ℕ
up n = if n == 2 || n == 3 then 1 else 0

abbrev a_dir : ℕ → ℤ → Visit ℕ
a_dir p time = record { path = p; is_dir = true; mod_time = time; failed = false }

abbrev visits : List (Visit ℕ)
visits = a_dir 1 (pos 50) ∷ a_dir 2 (pos 50) ∷ a_dir 3 (pos 5) ∷ []

abbrev orders : List (Option (List ℕ))
orders = some (0 ∷ 1 ∷ 2 ∷ []) ∷ some (0 ∷ 1 ∷ []) ∷ some (0 ∷ []) ∷ []

abbrev end_state : State ℕ
end_state = record {
  counts = (0, pos 1) ∷ [];
  counted = [];
  removed = (1, 1 ∷ []) ∷ (2, 2 ∷ 1 ∷ []) ∷ [];
  changed = false;
  failed = false;
}

-- The root is removed, and the directory 3 with it.
removes_root :
    remove_empty_dirs ℕ_discrete up 1 (pos 10) (pos 99) (λ p. true) visits orders
    ≡ some (end_state, nil_error)
unfolding remove_empty_dirs ℕ_discrete lookup insert erase
removes_root = refl

visits-IsWalk : IsWalk ℕ_discrete up 1 (pos 10) (pos 99) visits (initial ℕ_discrete up 1)
unfolding children visit ℕ_discrete initial has
visits-IsWalk = (
  inl refl,
  (
    inr (refl, (λ h. omega (arith, h)), inl refl),
    (inr (refl, (λ h. omega (arith, h)), inl refl), tt),
  ),
)

remove_empty_dirs-AllEmpty_example : AllEmpty ℕ_discrete up 1 end_state.removed
remove_empty_dirs-AllEmpty_example =
    remove_empty_dirs-AllEmpty ℕ_discrete up 1 (pos 10) (pos 99) (λ p. true) visits orders end_state
      nil_error visits-IsWalk removes_root
