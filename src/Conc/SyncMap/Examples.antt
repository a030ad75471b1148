-- ===== src/Conc/SyncMap/Examples.antt =====
-- Calls of a concrete generic map, with 0 as its nil value.
use mathlib.Core.Option.{some-injective}
use goddd.Common.{
  ◌≢◌, sym, ◌+◌, arith, Bool, ap, ℕ, ◌≡◌, refl, true, false, List, [], ◌∷◌, Option, none, some,
  ℕ_discrete, ◌==◌, ==_iff,
}
use goddd.Common.Assoc.{insert, lookup, IsDistinct}
use goddd.Conc.SyncMap
use goddd.Conc.SyncMap.{Boxing, Map}
use goddd.Conc.SyncMap.View.{view}
use goddd.Conc.SyncMap.Boxed.{IsBoxed}
use goddd.Conc.SyncMap.Listing.{Lists}
use goddd.Conc.SyncMap.Laws.{
  run, spec_run, run_refines, op_store, op_load, op_load_or_store, op_swap, op_delete,
  op_compare_and_swap, op_compare_and_delete, step, Op, Answer, pair, success, nothing,
}

-- Values with a nil, as pointers have: 0 is the nil.
abbrev pointers : Boxing ℕ
pointers = record { zero_value = 0; is_nil = λ n. n == 0; nil_is_zero = λ n h. (==_iff n 0).0 h }

some≢none : {v : ℕ} → some v ≢ none
some≢none e = cc

abbrev same_any : Discrete (Option ℕ)
same_any none none = yes refl
same_any none (some w) = no (λ e. some≢none (sym e))
same_any (some v) none = no some≢none
same_any (some v) (some w) = elim (ℕ_discrete v w) [
  | yes p ↦ yes (ap some p)
  | no n ↦ no (λ e. n (some-injective _ _ e))
]

abbrev two : Map ℕ ℕ
two = record { entries = (7, some 70) ∷ (8, none) ∷ [] }

-- A nil value is stored and found, and is compared as one.
abbrev calls : List (Op ℕ ℕ)
calls =
    op_load 8
    ∷ op_load_or_store 8 5
    ∷ op_compare_and_swap 8 0 6
    ∷ op_compare_and_delete 7 71
    ∷ op_store 9 0
    ∷ op_swap 7 6
    ∷ op_delete 9
    ∷ []

answers :
    (run ℕ_discrete pointers same_any ℕ_discrete calls two).1
    ≡ pair (0, true)
      ∷ pair (0, true)
      ∷ success true
      ∷ success false
      ∷ nothing
      ∷ pair (70, true)
      ∷ nothing
      ∷ []
unfolding run step ℕ_discrete SyncMap.store SyncMap.load SyncMap.load_or_store
    SyncMap.compare_and_swap SyncMap.compare_and_delete SyncMap.swap SyncMap.delete lookup insert
answers = refl

two-IsDistinct : IsDistinct ℕ_discrete two.entries
unfolding lookup ℕ_discrete
two-IsDistinct = (refl, (refl, tt))

two-IsBoxed : IsBoxed ℕ_discrete pointers two
unfolding IsBoxed lookup
two-IsBoxed k x e = elim (ℕ_discrete 7 k) [
  | yes p ↦ ap (λ y. y) (ground (arith, e, p))
  | no n ↦ ground (arith, e, n)
]

-- A callback that adds up the values.
abbrev sum : ℕ → ℕ → ℕ → ℕ × Bool
sum k v s = (s + v, true)

run_refines_example :
    (◌≡◌ {A = (ℕ → Option ℕ) × List (Answer ℕ)}
      (
        view ℕ_discrete pointers (run ℕ_discrete pointers same_any ℕ_discrete calls two).0,
        (run ℕ_discrete pointers same_any ℕ_discrete calls two).1,
      )
      (spec_run ℕ_discrete pointers same_any ℕ_discrete calls (view ℕ_discrete pointers two)))
    × Lists ℕ_discrete pointers sum 0
        (run ℕ_discrete pointers same_any ℕ_discrete calls two).0
        (spec_run ℕ_discrete pointers same_any ℕ_discrete calls (view ℕ_discrete pointers two)).0
run_refines_example =
    run_refines ℕ_discrete pointers same_any ℕ_discrete sum 0 calls two
      (two-IsDistinct, two-IsBoxed)
