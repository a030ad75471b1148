-- ===== src/Orm/Update/Examples.antt =====
-- A table with at most one row, a number other than 0.
use goddd.Orm.OneRow.{one_row}
use goddd.Orm.Update.Atomic.{AllSucceed, update-Updates, session_lem, Updates}
use goddd.Common.Int.{pos}
use goddd.Orm.Gorm.{Gorm}
use goddd.Orm.Update.{
  update_with_context, update_with_session, pos, session, update_with_context2, list_with_context,
  delete_with_context,
}
use goddd.Common.{
  ◌&&◌, Bool, ◌-◌, ◌⊎◌, if◌then◌else◌, ◌==◌, ◌≡◌, [], suc, Option, List, ◌∷◌, some, none, refl, ℕ,
}

abbrev numbers : Gorm ℕ
numbers = one_row (λ r. r == 0)

abbrev DoneNumber : Type 0
DoneNumber = Option ℕ × (ℕ × Option ℕ)

-- The condition on a number.
abbrev value_is : ℕ → (ℕ → Bool) → ℕ → Bool
value_is k q r = q r && (r == k)

-- A change that subtracts one, and refuses to do so at 3.
abbrev less_one : ℕ → ℕ × Option ℕ
less_one r = if r == 3 then (r, some 4) else (r - 1, none)

updates_row :
    update_with_context2 numbers less_one (value_is 5 ∷ []) 0 (some 5) ≡ some (some 4, (4, none))
unfolding update_with_context2
updates_row = refl

save_refused :
    update_with_context2 numbers less_one (value_is 1 ∷ []) 0 (some 1) ≡ some (some 1, (0, some 2))
unfolding update_with_context2
save_refused = refl

update-Updates_example :
    ((out : DoneNumber) × (update_with_context2 numbers less_one (value_is 5 ∷ []) 0 (some 5)
        ≡ some out)
      × Updates numbers less_one (value_is 5 ∷ []) 0 (some 5) out)
    × ((out : DoneNumber) × (update_with_session numbers less_one (value_is 5 ∷ []) 0 (some 5)
          ≡ some out)
        × Updates numbers less_one (value_is 5 ∷ []) 0 (some 5) out)
    × ((out : DoneNumber) × (update_with_context numbers suc (value_is 5 ∷ []) 0 (some 5)
          ≡ some out)
        × Updates numbers (λ r. (suc r, none)) (value_is 5 ∷ []) 0 (some 5) out)
update-Updates_example = update-Updates numbers less_one suc (value_is 5) [] 0 (some 5)

-- The first function changes the row, the second one fails.
abbrev two_functions : List (Option ℕ → Option ℕ × Option ℕ)
two_functions = (λ d. (some 9, none)) ∷ (λ d. (none, some 4)) ∷ []

session_rolled_back : session numbers two_functions 0 (some 5) ≡ (some 5, (0, some 4))
unfolding session
session_rolled_back = refl

session_lem_example :
    (((session numbers two_functions 0 (some 5)).1.1 ≡ none)
      × AllSucceed numbers two_functions (some 5) (session numbers two_functions 0 (some 5)).0)
    ⊎ (((session numbers two_functions 0 (some 5)).0 ≡ some 5)
        × ((e : ℕ) × ((session numbers two_functions 0 (some 5)).1.1 ≡ some e)))
session_lem_example = session_lem numbers two_functions 0 (some 5)

delete_wants_condition : delete_with_context numbers [] 0 (some 5) ≡ (some 5, (0, some 3))
unfolding delete_with_context
delete_wants_condition = refl

lists_row : list_with_context numbers none [] [] (some 5) ≡ (5 ∷ [], (pos 1, none))
unfolding list_with_context
lists_row = refl
