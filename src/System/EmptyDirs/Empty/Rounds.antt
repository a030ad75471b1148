-- ===== src/System/EmptyDirs/Empty/Rounds.antt =====
-- What `RemoveEmptyDirs` removes is empty, as far as it has counted.
use goddd.Common.Assoc.{lookup}
use goddd.System.EmptyDirs.Empty.{
  has-without_ne, remove_dir-HasKeys, remove_dir-HasParents, remove_dir-HasCounts, has,
  has-children, no_children, is_same_cases, AllEmpty, IsKnown, Inv,
}
use goddd.System.EmptyDirs.Empty.Counted.{
  has-without_ne, has-children, has, is_same_cases, children,
}
use goddd.Common.Int.{negsuc, pos, ℤ}
use goddd.System.EmptyDirs.{
  lookup, ℤ, turn, sweep, remove_dir, rounds, turn_at, count_of, State, is_zero,
}
use goddd.Common.{
  ◌∙◌, sym, not, ◌||◌, ap, arith, Bool-cases, [], ◌≡◌, Option, List, Bool, ◌∷◌, inr, inl, some,
  none, false, true, refl,
}

module _ {P : Type 0} (dec : Discrete P) (parent : P → P) (root : P) where
  remove_dir-AllEmpty :
      (p : P) (s : State P)
      → children dec parent p s.counted ≡ 0
      → AllEmpty dec parent root s.removed
      → AllEmpty dec parent root (remove_dir dec parent p s).removed
  unfolding remove_dir
  remove_dir-AllEmpty p s z all = elim (is_same_cases dec parent (parent p) p) [
    | inl (b, e) ↦ rw b ((λ q there. has-children dec parent p q s.counted z there), all)
    | inr (b, n) ↦ rw b ((λ q there. has-children dec parent p q s.counted z there), all)
  ]

  remove_dir-Inv :
      (p : P) (s : State P)
      → Inv dec parent root s
      → IsKnown dec parent root p s.counted
      → count_of dec parent p s.counts ≡ pos 0
      → Inv dec parent root (remove_dir dec parent p s)
  remove_dir-Inv p s (hc, hp, hk, all) known zero =
      let (z, not_top) = no_children dec parent root p s hc zero in
      let there : has dec parent p s.counted ≡ true = elim known [
        | inl b ↦ b
        | inr e ↦ elim (is_same_cases dec parent (parent root) p) [
          | inl (b, f) ↦ cc
          | inr (b, n) ↦ absurd (n (sym e))
        ]
      ] in
      let (other, parent_known) = hp p there in
      (
        remove_dir-HasCounts dec parent root p s hc hp there zero,
        remove_dir-HasParents dec parent root p s hp z,
        remove_dir-HasKeys dec parent root p s hk (elim parent_known [
          | inl b ↦ inl (has-without_ne dec parent p (parent p) s.counted other b)
          | inr e ↦ inr e
        ]),
        remove_dir-AllEmpty p s z all,
      )

  is_zero_lem : (n : ℤ) → is_zero n ≡ true → n ≡ pos 0
  unfolding is_zero
  is_zero_lem (pos n) h = ap pos (ground (arith, h))
  is_zero_lem (negsuc n) h = cc

  count_of_found :
      (p : P) (n : ℤ) (m : List (P × ℤ)) → lookup dec p m ≡ some n → count_of dec parent p m ≡ n
  unfolding count_of
  count_of_found p n m e = ground (arith, e)

  turn_at-Inv :
      (removes : P → Bool) (p : P) (found : Option ℤ) (s : State P)
      → Inv dec parent root s
      → lookup dec p s.counts ≡ found
      → Inv dec parent root (turn_at dec parent removes p found s)
  unfolding turn_at
  turn_at-Inv removes p none s inv e = inv
  turn_at-Inv removes p (some n) s inv e = elim (Bool-cases (s.failed || not (is_zero n))) [
    | inl b ↦ rw b inv
    | inr b ↦ elim (Bool-cases (removes p)) [
      | inr c ↦ rw (b, c) inv
      | inl c ↦
          rw (b, c)
            (remove_dir-Inv p s inv (inv.2 p n e)
              (count_of_found p n s.counts e ∙ is_zero_lem n (ground (arith, b))))
    ]
  ]

  turn-Inv :
      (removes : P → Bool) (p : P) (s : State P)
      → Inv dec parent root s
      → Inv dec parent root (turn dec parent removes p s)
  unfolding turn
  turn-Inv removes p s inv = turn_at-Inv removes p (lookup dec p s.counts) s inv refl

  sweep-Inv :
      (removes : P → Bool) (order : List P) (s : State P)
      → Inv dec parent root s
      → Inv dec parent root (sweep dec parent removes order s)
  unfolding sweep
  sweep-Inv removes [] s inv = inv
  sweep-Inv removes (p ∷ ps) s inv =
      sweep-Inv removes ps (turn dec parent removes p s) (turn-Inv removes p s inv)

  pub rounds-Inv :
      (removes : P → Bool) (schedule : List (Option (List P))) (s : State P)
      → Inv dec parent root s
      → Inv dec parent root (rounds dec parent removes schedule s).0
  unfolding rounds
  rounds-Inv removes [] s inv = inv
  rounds-Inv removes (none ∷ rs) s inv = inv
  rounds-Inv removes (some order ∷ rs) s inv =
      let s' = sweep dec parent removes order (record s { changed = false }) in
      let inv' : Inv dec parent root s' =
        sweep-Inv removes order (record s { changed = false }) inv in
      let rest = rounds-Inv removes rs s' inv' in
      elim (Bool-cases s'.failed) [
        | inl b ↦ rw b inv'
        | inr b ↦ elim (Bool-cases s'.changed) [ inl c ↦ rw (b, c) rest | inr c ↦ rw (b, c) inv' ]
      ]
