-- ===== src/System/EmptyDirs/Empty/Counted.antt =====
-- Counting by parents: lists of paths, and the map of counts.
use goddd.Common.Assoc.{lookup-erase, lookup-insert, erase, insert}
use goddd.Common.Int.{pos, ℤ}
use goddd.System.EmptyDirs.{insert, erase, ℤ, is_same, count_of, without}
use goddd.Common.{
  ◌∙◌, ap, if_neg, if_pos, [], ◌||◌, arith, ◌+◌, suc, ◌⊎◌, if◌then◌else◌, Bool, ◌≡◌, ◌≢◌, List, ◌∷◌,
  inr, inl, false, true, ℕ,
}

module _ {P : Type 0} (dec : Discrete P) (parent : P → P) where
  pub is_same_cases :
      (p q : P)
      → ((is_same dec parent p q ≡ true) × (p ≡ q)) ⊎ ((is_same dec parent p q ≡ false) × (p ≢ q))
  unfolding is_same
  is_same_cases p q = elim (dec p q) [
    | yes e ↦ inl (ground (arith, e), e)
    | no n ↦ inr (ground (arith, n), n)
  ]

  -- How many of the paths have a parent.
  unfoldable pub children : P → List P → ℕ
  children k [] = 0
  children k (q ∷ qs) =
      let rest = children k qs in if is_same dec parent (parent q) k then suc rest else rest

  unfoldable pub has : P → List P → Bool
  has p [] = false
  has p (q ∷ qs) = is_same dec parent q p || has p qs

  pub count_of-insert :
      (k j : P) (n : ℤ) (m : List (P × ℤ))
      → count_of dec parent j (insert dec k n m)
        ≡ (if is_same dec parent k j then n else count_of dec parent j m)
  unfolding count_of is_same
  count_of-insert k j n m = ground (arith, lookup-insert dec k j n m)

  pub count_of-erase :
      (k j : P) (m : List (P × ℤ))
      → count_of dec parent j (erase dec k m)
        ≡ (if is_same dec parent k j then pos 0 else count_of dec parent j m)
  unfolding count_of is_same
  count_of-erase k j m = ground (arith, lookup-erase dec k j m)

  pub children-without :
      (p k : P) (qs : List P)
      → has p qs ≡ true
      → children k qs
        ≡ (if is_same dec parent (parent p) k then 1 else 0) + children k (without dec parent p qs)
  unfolding children has without is_same
  children-without p k [] h = cc
  children-without p k (q ∷ qs) h = elim (dec q p) [
    | yes e ↦ rw (if_pos _ e) (rw e (ground arith))
    | no n ↦ rw (if_neg _ n) (ground (arith, children-without p k qs (ground (arith, h, n))))
  ]

  pub has-without :
      (p q : P) (qs : List P) → has q (without dec parent p qs) ≡ true → has q qs ≡ true
  unfolding has without is_same
  has-without p q [] h = h
  has-without p q (r ∷ qs) h = ground (arith, h, has-without p q qs)

  pub has-without_ne :
      (p q : P) (qs : List P) → q ≢ p → has q qs ≡ true → has q (without dec parent p qs) ≡ true
  unfolding has without is_same
  has-without_ne p q [] n h = h
  has-without_ne p q (r ∷ qs) n h = ground (arith, h, n, has-without_ne p q qs n)

  -- A path without children is the parent of none of them.
  pub has-children : (p q : P) (qs : List P) → children p qs ≡ 0 → has q qs ≡ true → parent q ≢ p
  unfolding children has
  has-children p q [] z h = cc
  has-children p q (r ∷ qs) z h = elim (is_same_cases r q) [
    | inl (b, e) ↦ elim (is_same_cases (parent r) p) [
      | inl (c, f) ↦ (λ f. ground (arith, c, z))
      | inr (c, n) ↦ (λ f. n (ap parent e ∙ f))
    ]
    | inr (b, n) ↦ has-children p q qs (ground (arith, z)) (ground (arith, h, b))
  ]
