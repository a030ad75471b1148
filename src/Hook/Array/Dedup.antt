-- ===== src/Hook/Array/Dedup.antt =====
-- What is left of a slice once repeated keys are dropped, and when no value is repeated.
use goddd.Common.{
  ◌+◌, ◌≤◌, ◌≡◌, ◌≢◌, ◌↔◌, refl, ap, true, List, [], ◌∷◌, Option, none, some, arith, length, ite,
  Option-cases, inl, inr, ==_iff,
}
use goddd.Common.Assoc.{lookup, insert, lookup-insert, length-insert_new}
use goddd.Hook.Array.{
  dedup_loop, deduplication_func, deduplication, unique, key_set, Present, present,
}

-- A run of a slice from which only entries of earlier keys have been left out.
module _ {T K : Type 0} (dec : Discrete K) (fn : T → K) where
  -- The first entry of a key in a slice.
  unfoldable pub first_of : K → List T → Option T
  first_of k [] = none
  first_of k (v ∷ vs) = ite (dec (fn v) k) (some v) (first_of k vs)

  dedup_first :
      (k : K) (vs : List T) (seen : List (K × Present))
      → first_of k (dedup_loop dec fn vs seen)
        ≡ elim (lookup dec k seen) [ none ↦ first_of k vs | some _ ↦ none ]
  unfolding dedup_loop first_of
  dedup_first k [] seen = ground arith
  dedup_first k (v ∷ vs) seen = ground (
    arith,
    dedup_first k vs seen,
    dedup_first k vs (insert dec (fn v) present seen),
    lookup-insert dec (fn v) k present seen,
  )

  seen_absent :
      (k : K) (vs : List T) (seen : List (K × Present))
      → lookup dec k seen ≢ none
      → first_of k (dedup_loop dec fn vs seen) ≡ none
  seen_absent k vs seen h = ground (arith, dedup_first k vs seen)

  -- No two entries have one key.
  abbrev pub IsKeyed : List T → Type 0
  IsKeyed [] = Unit
  IsKeyed (v ∷ vs) = (first_of (fn v) vs ≡ none) × IsKeyed vs

  dedup-IsKeyed : (vs : List T) (seen : List (K × Present)) → IsKeyed (dedup_loop dec fn vs seen)
  unfolding dedup_loop
  dedup-IsKeyed [] seen = tt
  dedup-IsKeyed (v ∷ vs) seen = elim (Option-cases (lookup dec (fn v) seen)) [
    | inl e ↦
        rw (e, dedup_loop)
          (
            seen_absent (fn v) vs (insert dec (fn v) present seen)
                (λ n. ground (arith, lookup-insert dec (fn v) (fn v) present seen)),
            dedup-IsKeyed vs (insert dec (fn v) present seen),
          )
    | inr (x, e) ↦ rw (e, dedup_loop) (dedup-IsKeyed vs seen)
  ]

  -- `DeduplicationFunc` keeps one entry for each key of the slice, the first.
  pub first_of-deduplication_func :
      (vs : List T)
      → IsKeyed (deduplication_func dec vs fn)
        × ((k : K) → first_of k (deduplication_func dec vs fn) ≡ first_of k vs)
  unfolding deduplication_func lookup
  first_of-deduplication_func vs = (dedup-IsKeyed vs [], λ k. dedup_first k vs [])

module _ {T : Type 0} (dec : Discrete T) where
  -- Adding a key that is there changes nothing.
  insert_again :
      (k : T) (m : List (T × Present)) (x : Present)
      → lookup dec k m ≡ some x
      → insert dec k present m ≡ m
  unfolding insert lookup
  insert_again k [] x h = cc
  insert_again k ((j, present) ∷ m) x h = ground (arith, insert_again k m x)

  length-key_set :
      (vs : List T) (seen : List (T × Present))
      → length (key_set dec vs seen) ≡ length seen + length (dedup_loop dec (λ v. v) vs seen)
  unfolding key_set dedup_loop
  length-key_set [] seen = omega arith
  length-key_set (v ∷ vs) seen = elim (Option-cases (lookup dec v seen)) [
    | inl e ↦
        rw (e, dedup_loop)
          (omega (
            arith,
            length-key_set vs (insert dec v present seen),
            length-insert_new dec v present seen e,
          ))
    | inr (x, e) ↦
        let kept = insert_again v seen x e in rw (e, dedup_loop) (rw kept (length-key_set vs seen))
  ]

  length-dedup_loop :
      (vs : List T) (seen : List (T × Present))
      → length (dedup_loop dec (λ v. v) vs seen) ≤ length vs
  unfolding dedup_loop
  length-dedup_loop [] seen = omega arith
  length-dedup_loop (v ∷ vs) seen =
      ground (arith, length-dedup_loop vs seen, length-dedup_loop vs (insert dec v present seen))

  kept_all :
      (vs : List T) (seen : List (T × Present))
      → length (dedup_loop dec (λ v. v) vs seen) ≡ length vs
      → dedup_loop dec (λ v. v) vs seen ≡ vs
  unfolding dedup_loop
  kept_all [] seen h = refl
  kept_all (v ∷ vs) seen h = elim (Option-cases (lookup dec v seen)) [
    | inl e ↦
        rw (e, dedup_loop)
          (ap (◌∷◌ v) (kept_all vs (insert dec v present seen) (ground (arith, e))))
    | inr (x, e) ↦ absurd (ground (arith, e, length-dedup_loop vs seen))
  ]

  -- `Unique` holds of the slices that `Deduplication` leaves as they are.
  pub unique_iff : (vs : List T) → (unique dec vs ≡ true) ↔ (deduplication dec vs ≡ vs)
  unfolding unique deduplication
  unique_iff vs = (
    (λ h. kept_all vs [] (omega (arith, (==_iff _ _).0 h, length-key_set vs []))),
    λ h. (==_iff _ _).1 (omega (arith, ap length h, length-key_set vs [])),
  )
