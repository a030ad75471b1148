-- ===== src/Hook/Array/Examples.antt =====
-- Slices of numbers.
use goddd.Common.{
  ℕ, ◌%◌, ◌-◌, ◌<◌, ◌≡◌, refl, List, [], ◌∷◌, some, arith, length, get_elem?, ℕ_discrete,
}
use goddd.Common.Assoc.{lookup, insert}
use goddd.Hook.Array.{reverse, reverse_loop, exchange, deduplication_func, dedup_loop}
use goddd.Hook.Array.Reverse.{get_elem?-reverse}

abbrev five : List ℕ
five = 5 ∷ 15 ∷ 7 ∷ 5 ∷ 9 ∷ []

reversed : reverse five ≡ some (9 ∷ 5 ∷ 7 ∷ 15 ∷ 5 ∷ [])
unfolding reverse reverse_loop exchange
reversed = refl

by_last_digit : deduplication_func ℕ_discrete five (λ n. n % 10) ≡ 5 ∷ 7 ∷ 9 ∷ []
unfolding deduplication_func dedup_loop lookup insert ℕ_discrete
by_last_digit = refl

get_elem?-reverse_example :
    (r : List ℕ) × (reverse five ≡ some r)
    × (length r ≡ 5)
    × ((k : ℕ) → k < 5 → get_elem? r k ≡ get_elem? five (5 - 1 - k))
get_elem?-reverse_example = get_elem?-reverse five (omega arith)
