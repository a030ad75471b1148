-- ===== src/Hook/Array/Reverse.antt =====
-- The loop of `Reverse` mirrors the slice: it never reads out of range.
use goddd.Common.{
  ◌⊎◌, ltb→lt, ℕ, zero, suc, ◌+◌, ◌-◌, ◌≤◌, ◌<◌, ◌≡◌, refl, sym, ap, ◌∙◌, false, Bool-cases, inl,
  inr, List, [], ◌∷◌, some, arith, ltb, length, get_elem?, get_elem?_of_lt, set, length-set,
}
use goddd.Hook.Array.{exchange, reverse_loop, reverse}

stops : (i j : ℕ) → ltb i j ≡ false → j ≤ i
stops i j h = ground arith

module _ {ℓ} {A : Type ℓ} where
  get_elem?-set_same :
      (xs : List A) (i : ℕ) (v : A) → i < length xs → get_elem? (set xs i v) i ≡ some v
  get_elem?-set_same [] i v h = absurd (omega arith)
  get_elem?-set_same (x ∷ xs) zero v h = refl
  get_elem?-set_same (x ∷ xs) (suc i) v h = get_elem?-set_same xs i v (omega arith)

  get_elem?-set_other :
      (xs : List A) (i k : ℕ) (v : A) → (i ≡ k → ⊥) → get_elem? (set xs i v) k ≡ get_elem? xs k
  get_elem?-set_other [] i k v h = refl
  get_elem?-set_other (x ∷ xs) zero zero v h = absurd (h refl)
  get_elem?-set_other (x ∷ xs) zero (suc k) v h = refl
  get_elem?-set_other (x ∷ xs) (suc i) zero v h = refl
  get_elem?-set_other (x ∷ xs) (suc i) (suc k) v h =
      get_elem?-set_other xs i k v (λ e. h (ap suc e))

  -- One exchange, of two places in range.
  exchange_lem :
      (i j : ℕ) (arr : List A)
      → i < j
      → j < length arr
      → (arr' : List A) × (exchange i j arr ≡ some arr')
        × (length arr' ≡ length arr)
        × (get_elem? arr' i ≡ get_elem? arr j)
        × (get_elem? arr' j ≡ get_elem? arr i)
        × ((k : ℕ) → (i ≡ k → ⊥) → (j ≡ k → ⊥) → get_elem? arr' k ≡ get_elem? arr k)
  unfolding exchange
  exchange_lem i j arr h b =
      let (x, ex) = get_elem?_of_lt arr i (omega arith) in
      let (y, ey) = get_elem?_of_lt arr j b in
      (
        set (set arr i y) j x,
        rw (ex, exchange) (rw (ey, exchange) refl),
        length-set (set arr i y) j x ∙ length-set arr i y,
        get_elem?-set_other (set arr i y) j i x (λ e. omega (arith, e))
            ∙ get_elem?-set_same arr i y (omega arith)
            ∙ sym ey,
        get_elem?-set_same (set arr i y) j x (omega (arith, length-set arr i y)) ∙ sym ex,
        λ k p q. get_elem?-set_other (set arr i y) j k x q ∙ get_elem?-set_other arr i k y p,
      )

  -- What a run between `i` and `j` leaves: the places between them mirrored, the others as they were.
  abbrev IsMirrored : ℕ → ℕ → List A → List A → Type ℓ
  IsMirrored i j arr arr' =
      (length arr' ≡ length arr)
      × ((k : ℕ) → i ≤ k → k ≤ j → get_elem? arr' k ≡ get_elem? arr (i + j - k))
      × ((k : ℕ) → k < i → get_elem? arr' k ≡ get_elem? arr k)
      × ((k : ℕ) → j < k → get_elem? arr' k ≡ get_elem? arr k)

  get_at : (arr : List A) (k l : ℕ) → k ≡ l → get_elem? arr k ≡ get_elem? arr l
  get_at arr k l e = ap (get_elem? arr) e

  IsMirrored-step :
      (i j : ℕ) (arr b arr' : List A)
      → i < j
      → length b ≡ length arr
      → get_elem? b i ≡ get_elem? arr j
      → get_elem? b j ≡ get_elem? arr i
      → ((k : ℕ) → (i ≡ k → ⊥) → (j ≡ k → ⊥) → get_elem? b k ≡ get_elem? arr k)
      → IsMirrored (i + 1) (j - 1) b arr'
      → IsMirrored i j arr arr'
  IsMirrored-step i j arr b arr' h len at_i at_j others (len', inner, low, high) = (
    len' ∙ len,
    (λ k p q. elim (cases k p q) [
      | inl e ↦
          get_at arr' k i e
          ∙ low i (omega arith)
          ∙ at_i
          ∙ get_at arr j (i + j - k) (omega (arith, e))
      | inr (inl e) ↦
          get_at arr' k j e
          ∙ high j (omega arith)
          ∙ at_j
          ∙ get_at arr i (i + j - k) (omega (arith, e))
      | inr (inr (l, r)) ↦
          inner k l (omega (arith, r))
          ∙ get_at b (i + 1 + (j - 1) - k) (i + j - k) (omega (arith, l, r))
          ∙ others (i + j - k) (λ e. omega (arith, e, l, r)) (λ e. omega (arith, e, l, r))
    ]),
    (λ k p. low k (omega (arith, p)) ∙ others k (λ e. omega (arith, e)) (λ e. omega (arith, e))),
    (λ k p. high k (omega (arith, p)) ∙ others k (λ e. omega (arith, e)) (λ e. omega (arith, e))),
  )
    where
      cases : (k : ℕ) → i ≤ k → k ≤ j → (k ≡ i) ⊎ ((k ≡ j) ⊎ ((i + 1 ≤ k) × (k < j)))
      cases k p q = ground arith

  reverse_loop_lem :
      (fuel i j : ℕ) (arr : List A)
      → j ≤ i + fuel
      → j < length arr
      → (arr' : List A) × (reverse_loop fuel i j arr ≡ some arr') × IsMirrored i j arr arr'
  unfolding reverse_loop
  reverse_loop_lem zero i j arr h b = (
    arr,
    refl,
    (refl, (λ k p q. get_at arr k (i + j - k) (omega (arith, p, q))), (λ k p. refl), (λ k p. refl)),
  )
  reverse_loop_lem (suc fuel) i j arr h b = elim (Bool-cases (ltb i j)) [
    | inr e ↦ (
      arr,
      rw (e, reverse_loop) refl,
      (
        refl,
        (λ k p q. get_at arr k (i + j - k) (omega (arith, p, q, stops i j e))),
        (λ k p. refl),
        (λ k p. refl),
      ),
    )
    | inl e ↦
        let less = ltb→lt i j e in
        let (next, made, len, at_i, at_j, others) = exchange_lem i j arr less b in
        let (arr', run, mirrored) =
          reverse_loop_lem fuel (i + 1) (j - 1) next (omega (arith, h))
            (omega (arith, b, len, less)) in
        (
          arr',
          rw (e, reverse_loop) (rw (made, reverse_loop) run),
          IsMirrored-step i j arr next arr' less len at_i at_j others mirrored,
        )
  ]

  -- `Reverse` of a slice that is not empty returns a slice of the same length with the elements
  -- mirrored.
  pub get_elem?-reverse :
      (s : List A)
      → 0 < length s
      → (r : List A) × (reverse s ≡ some r)
        × (length r ≡ length s)
        × ((k : ℕ) → k < length s → get_elem? r k ≡ get_elem? s (length s - 1 - k))
  unfolding reverse
  get_elem?-reverse s h =
      let (r, run, mirrored) =
        reverse_loop_lem (length s) 0 (length s - 1) s (omega arith) (omega (arith, h)) in
      (
        r,
        run,
        mirrored.0,
        λ k b. mirrored.1 k (omega arith) (omega (arith, b)) ∙ get_at s _ _ (omega arith),
      )
