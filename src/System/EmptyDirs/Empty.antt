-- ===== src/System/EmptyDirs/Empty.antt =====
-- The counts of `RemoveEmptyDirs`, as each of its steps keeps them.
pub mod Counted
pub mod Rounds
pub mod Walked
use goddd.Common.Assoc.{lookup-insert_ne, lookup-erase_ne, lookup-erase_self, lookup, insert, erase}
use goddd.System.EmptyDirs.Empty.Counted.{
  children-without, count_of-erase, has-without_ne, has-children, count_of-insert, has-without,
  is_same_cases, has, children,
}
use goddd.Common.Int.{negsuc, sub_one_pos, pos_part, add_pos, ◌-ℤ◌, ◌+ℤ◌, pos, ℤ}
use goddd.System.EmptyDirs.{
  is_zero, turn_at, sweep, turn, rounds, erase, is_same, count_of, without, State, ℤ, remove_dir,
  count_path,
}
use mathlib.Core.Path.{subst}
use goddd.Common.{
  not, Bool-cases, refl, Option-cases, Option, Bool, [], none, some, sym, false, ap, ◌∙◌, ◌||◌,
  arith, if◌then◌else◌, ◌+◌, ◌⊎◌, ◌≢◌, ◌++◌, ◌≡◌, List, ◌∷◌, inr, inl, true, ℕ,
}

less_one : (n c x : ℕ) → n ≡ 1 + c → pos (n + x) -ℤ pos 1 ≡ pos (c + x)
less_one n c x h = ground (arith, h)

as_many : (n c x : ℕ) → n ≡ 0 + c → pos (n + x) ≡ pos (c + x)
as_many n c x h = ap pos (omega (arith, h))

module _ {P : Type 0} (dec : Discrete P) (parent : P → P) (root : P) where
  -- A path among those that are counted, or the parent of the root.
  abbrev pub IsKnown : P → List P → Type 0
  IsKnown k qs = (has dec parent k qs ≡ true) ⊎ (k ≡ parent root)

  abbrev pub HasCounts : List (P × ℤ) → List P → Type 0
  HasCounts m qs =
      (k : P)
      → count_of dec parent k m
        ≡ pos (children dec parent k qs + (if is_same dec parent (parent root) k then 1 else 0))

  -- Each directory that was removed held none of the paths that were left then.
  abbrev pub AllEmpty : List (P × List P) → Type 0
  AllEmpty [] = Unit
  AllEmpty ((p, left) ∷ rs) = ((q : P) → has dec parent q left ≡ true → parent q ≢ p) × AllEmpty rs

  -- The parents that are counted are known, and no path is its own parent.
  abbrev pub HasParents : List P → Type 0
  HasParents qs = (q : P) → has dec parent q qs ≡ true → (parent q ≢ q) × IsKnown (parent q) qs

  pub count_path-HasCounts :
      (p : P) (s : State P)
      → HasCounts s.counts s.counted
      → HasCounts (count_path dec parent p s).counts (count_path dec parent p s).counted
  unfolding count_path children
  count_path-HasCounts p s h k = elim (is_same_cases dec parent (parent p) p) [
    | inl (b, e) ↦ rw b (h k)
    | inr (b, n) ↦ rw b (
        count_of-insert dec parent (parent p) k (count_of dec parent (parent p) s.counts +ℤ pos 1)
          s.counts
        ∙ elim (is_same_cases dec parent (parent p) k) [
          | inl (c, e) ↦ rw c (
              ap (λ z. z +ℤ pos 1) (ap (λ j. count_of dec parent j s.counts) e ∙ h k)
              ∙ add_pos
                  (children dec parent k s.counted
                    + (if is_same dec parent (parent root) k then 1 else 0))
                  1
              ∙ ap pos (omega arith))
          | inr (c, m) ↦ rw c (h k)
        ])
  ]

  pub cons-IsKnown : (p k : P) (qs : List P) → IsKnown k qs → IsKnown k (p ∷ qs)
  unfolding has
  cons-IsKnown p k qs (inl b) = inl (ground (arith, b))
  cons-IsKnown p k qs (inr e) = inr e

  pub count_path-HasParents :
      (p : P) (s : State P)
      → HasParents s.counted
      → IsKnown (parent p) s.counted
      → HasParents (count_path dec parent p s).counted
  unfolding count_path has
  count_path-HasParents p s h known q there = elim (is_same_cases dec parent (parent p) p) [
    | inl (b, e) ↦ rw b (h q (rw b at there))
    | inr (b, n) ↦
        let listed : is_same dec parent p q || has dec parent q s.counted ≡ true = rw b at there in
        rw b (elim (is_same_cases dec parent p q) [
          | inl (c, e) ↦
              subst (λ r. (parent r ≢ r) × IsKnown (parent r) (p ∷ s.counted)) e
                (n, cons-IsKnown p (parent p) s.counted known)
          | inr (c, m) ↦
              (let (other, is_known) = h q (ground (arith, listed, c)) in
                (other, cons-IsKnown p (parent q) s.counted is_known))
        ])
  ]

  without-HasParents :
      (p : P) (qs : List P)
      → HasParents qs
      → children dec parent p qs ≡ 0
      → HasParents (without dec parent p qs)
  without-HasParents p qs h z q there =
      let was = has-without dec parent p q qs there in
      let (other, is_known) = h q was in
      let not_p = has-children dec parent p q qs z was in
      (
        other,
        elim is_known [
          | inl b ↦ inl (has-without_ne dec parent p (parent q) qs not_p b)
          | inr e ↦ inr e
        ],
      )

  -- A count of zero is that of a path without children, other than the parent of the root.
  pub no_children :
      (p : P) (s : State P)
      → HasCounts s.counts s.counted
      → count_of dec parent p s.counts ≡ pos 0
      → (children dec parent p s.counted ≡ 0) × (is_same dec parent (parent root) p ≡ false)
  no_children p s h zero =
      let sum = ap pos_part (sym zero ∙ h p) in (omega (arith, sum), ground (arith, sum))

  erased_counts :
      (p k : P) (s : State P)
      → HasCounts s.counts s.counted
      → count_of dec parent p s.counts ≡ pos 0
      → count_of dec parent k (erase dec p s.counts)
        ≡ pos (
            children dec parent k s.counted + (if is_same dec parent (parent root) k then 1 else 0))
  erased_counts p k s h zero =
      count_of-erase dec parent p k s.counts ∙ elim (is_same_cases dec parent p k) [
        | inl (c, e) ↦ rw c (sym zero ∙ ap (λ j. count_of dec parent j s.counts) e ∙ h k)
        | inr (c, m) ↦ rw c (h k)
      ]

  pub remove_dir-HasCounts :
      (p : P) (s : State P)
      → HasCounts s.counts s.counted
      → HasParents s.counted
      → has dec parent p s.counted ≡ true
      → count_of dec parent p s.counts ≡ pos 0
      → HasCounts (remove_dir dec parent p s).counts (remove_dir dec parent p s).counted
  unfolding remove_dir
  remove_dir-HasCounts p s h hp there zero k =
      let less = children-without dec parent p k s.counted there in
      elim (is_same_cases dec parent (parent p) p) [
        | inl (b, e) ↦ absurd ((hp p there).0 e)
        | inr (b, n) ↦ rw b (
            count_of-insert dec parent (parent p) k
              (count_of dec parent (parent p) (erase dec p s.counts) -ℤ pos 1)
              (erase dec p s.counts)
            ∙ elim (is_same_cases dec parent (parent p) k) [
              | inl (c, e) ↦ rw c (
                  ap (λ z. z -ℤ pos 1)
                    (ap (λ j. count_of dec parent j (erase dec p s.counts)) e
                      ∙ erased_counts p k s h zero)
                  ∙ less_one (children dec parent k s.counted)
                      (children dec parent k (without dec parent p s.counted))
                      (if is_same dec parent (parent root) k then 1 else 0) (rw c at less))
              | inr (c, m) ↦ rw c (
                  erased_counts p k s h zero
                  ∙ as_many (children dec parent k s.counted)
                      (children dec parent k (without dec parent p s.counted))
                      (if is_same dec parent (parent root) k then 1 else 0) (rw c at less))
            ])
      ]

  pub remove_dir-HasParents :
      (p : P) (s : State P)
      → HasParents s.counted
      → children dec parent p s.counted ≡ 0
      → HasParents (remove_dir dec parent p s).counted
  unfolding remove_dir
  remove_dir-HasParents p s hp z = elim (is_same_cases dec parent (parent p) p) [
    | inl (b, e) ↦ rw b (without-HasParents p s.counted hp z)
    | inr (b, n) ↦ rw b (without-HasParents p s.counted hp z)
  ]

  -- Each key of the map of counts is known.
  abbrev pub HasKeys : List (P × ℤ) → List P → Type 0
  HasKeys m qs = (k : P) (n : ℤ) → lookup dec k m ≡ some n → IsKnown k qs

  pub insert-HasKeys :
      (p : P) (n : ℤ) (m : List (P × ℤ)) (qs : List P)
      → IsKnown p qs
      → HasKeys m qs
      → HasKeys (insert dec p n m) qs
  insert-HasKeys p n m qs known hk k i found = elim (dec p k) [
    | yes e ↦ subst (λ j. IsKnown j qs) e known
    | no d ↦ hk k i (sym (lookup-insert_ne dec p k n m d) ∙ found)
  ]

  erase-HasKeys :
      (p : P) (m : List (P × ℤ)) (qs : List P)
      → HasKeys m qs
      → HasKeys (erase dec p m) (without dec parent p qs)
  erase-HasKeys p m qs hk k i found = elim (dec p k) [
    | yes e ↦
        (let gone : none ≡ some i =
            sym (lookup-erase_self dec p m) ∙ ap (λ j. lookup dec j (erase dec p m)) e ∙ found in
          cc)
    | no d ↦ elim (hk k i (sym (lookup-erase_ne dec p k m d) ∙ found)) [
      | inl b ↦ inl (has-without_ne dec parent p k qs (λ f. d (sym f)) b)
      | inr e ↦ inr e
    ]
  ]

  pub remove_dir-HasKeys :
      (p : P) (s : State P)
      → HasKeys s.counts s.counted
      → IsKnown (parent p) (without dec parent p s.counted)
      → HasKeys (remove_dir dec parent p s).counts (remove_dir dec parent p s).counted
  unfolding remove_dir
  remove_dir-HasKeys p s hk known = elim (is_same_cases dec parent (parent p) p) [
    | inl (b, e) ↦ rw b (erase-HasKeys p s.counts s.counted hk)
    | inr (b, n) ↦ rw b (
        insert-HasKeys (parent p) (count_of dec parent (parent p) (erase dec p s.counts) -ℤ pos 1)
          (erase dec p s.counts) (without dec parent p s.counted) known
          (erase-HasKeys p s.counts s.counted hk))
  ]

  pub count_path-HasKeys :
      (p : P) (s : State P)
      → IsKnown (parent p) s.counted
      → HasKeys s.counts (p ∷ s.counted)
      → ((parent p ≡ p) → HasKeys s.counts s.counted)
      → HasKeys (count_path dec parent p s).counts (count_path dec parent p s).counted
  unfolding count_path
  count_path-HasKeys p s known hk same = elim (is_same_cases dec parent (parent p) p) [
    | inl (b, e) ↦ rw b (same e)
    | inr (b, n) ↦ rw b (
        insert-HasKeys (parent p) (count_of dec parent (parent p) s.counts +ℤ pos 1) s.counts
          (p ∷ s.counted) (cons-IsKnown p (parent p) s.counted known) hk)
  ]

  abbrev pub Inv : State P → Type 0
  Inv s =
      HasCounts s.counts s.counted
      × HasParents s.counted
      × HasKeys s.counts s.counted
      × AllEmpty s.removed
