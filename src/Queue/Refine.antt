-- ===== src/Queue/Refine.antt =====
-- A ring holds the newest `size` entries of all that were pushed.
use goddd.Common.{
  ℕ, zero, suc, ◌+◌, ◌-◌, ◌≤◌, ◌<◌, ◌≡◌, refl, sym, ap, ◌∙◌, Bool, true, false, Bool-cases, inl,
  inr, List, [], ◌∷◌, ◌++◌, append-nil, append_assoc, Option, some, arith, length, length-set,
  get_elem?, set, take, drop, length-append, length-drop, length-take_of_le, take_of_length-le,
  take-append_of_le, drop-append_of_le, drop_of_length-le, dec_lt, dec_le, get_elem?_of_lt, drop_at,
  take_at, take-set, drop-set,
}
use native.Mathlib.Numerals.{add-one}
use goddd.Queue.{CirQueue, new, push, stored, push_all, range, collect, size_of, next_index}
use goddd.Queue.Inv.{
  IsValid, new-IsValid, push_total, push-IsValid, next_index_inside, next_index_last,
}

-- What a bounded buffer of the newest entries promises: its contents after one more push.
pub keep_newest {ℓ} : {A : Type ℓ} → ℕ → List A → List A
keep_newest n xs = drop (length xs - n) xs

-- The entries that a queue holds, oldest first.
contents_of {ℓ} : {A : Type ℓ} → Bool → ℕ → List A → List A
contents_of true i xs = drop i xs ++ take i xs
contents_of false i xs = take i xs

pub contents {ℓ} : {A : Type ℓ} → CirQueue A → List A
contents c = contents_of c.over c.idx c.items

module _ {ℓ} {A : Type ℓ} where
  -- The storage read round from `i`.
  abbrev rotated : List A → ℕ → List A
  rotated xs i = drop i xs ++ take i xs

  take-rotated_step :
      (xs : List A) (n i : ℕ) (x : A)
      → get_elem? xs i ≡ some x
      → i < length xs
      → n < length xs
      → take (suc n) (rotated xs i) ≡ x ∷ take n (rotated xs (suc i))
  take-rotated_step xs n i x e h k =
      rw (drop_at xs i x e, take_at xs i x e, ← append_assoc)
        (ap (◌∷◌ x) (
          sym (
            take-append_of_le n _ (x ∷ []) (
              omega (
                arith,
                length-append (drop (suc i) xs) (take i xs),
                length-drop (suc i) xs,
                length-take_of_le i xs (omega arith),
              )))))

  -- Round the end of the storage.
  rotated_end : (xs : List A) (i : ℕ) → i ≡ length xs → rotated xs i ≡ rotated xs 0
  rotated_end xs i e = rw (
    e,
    take_of_length-le (length xs) xs (omega arith),
    drop_of_length-le (length xs) xs (omega arith),
    append-nil,
  )

  collect_step :
      (c : CirQueue A) (n i : ℕ) (x : A) (xs : List A)
      → get_elem? c.items i ≡ some x
      → collect c n (next_index c i) ≡ some xs
      → collect c (suc n) i ≡ some (x ∷ xs)
  unfolding collect
  collect_step c n i x xs e h = ground arith

  collect_next :
      {c : CirQueue A} (n i : ℕ)
      → IsValid c
      → i < c.size
      → ((j : ℕ) → j < c.size → collect c n j ≡ some (take n (rotated c.items j)))
      → collect c n (next_index c i) ≡ some (take n (rotated c.items (suc i)))
  collect_next {c} n i v h ih = elim (dec_lt (suc i) c.size) [
    | yes p ↦ rw (next_index_inside i v (omega arith)) (ih (i + 1) (omega arith) ∙ at_suc)
    | no p ↦
        rw (next_index_last i v (omega arith), rotated_end c.items (suc i) (omega arith))
          (ih 0 v.nonempty)
  ]
    where
      at_suc :
          ◌≡◌ {A = Option (List A)}
            (some (take n (rotated c.items (i + 1))))
            (some (take n (rotated c.items (suc i))))
      at_suc = rw add-one

  -- Reading `n` entries from index `i` on gives the storage read round from `i`.
  collect_lem :
      {c : CirQueue A} (n i : ℕ)
      → IsValid c
      → i < c.size
      → n ≤ c.size
      → collect c n i ≡ some (take n (rotated c.items i))
  unfolding collect
  collect_lem zero i v h k = refl
  collect_lem {c} (suc n) i v h k =
      let (x, e) = get_elem?_of_lt c.items i (omega arith) in
      collect_step c n i x (take n (rotated c.items (suc i))) e
        (collect_next n i v h (λ j p. collect_lem n j v p (omega arith)))
      ∙ ap some (sym (take-rotated_step c.items n i x e (omega arith) (omega arith)))

  length_all : (c : CirQueue A) → IsValid c → length (rotated c.items c.idx) ≤ c.size
  length_all c v = omega (
    arith,
    length-append (drop c.idx c.items) (take c.idx c.items),
    length-drop c.idx c.items,
    length-take_of_le c.idx c.items (omega arith),
  )

  -- `Range` of a valid queue does not panic, and lists what the queue holds.
  pub range-contents : {c : CirQueue A} → IsValid c → range c ≡ some (contents c)
  unfolding range contents contents_of
  range-contents {c} v = elim (Bool-cases c.over) [
    | inl e ↦
        rw (e, contents_of)
          (collect_lem c.size c.idx v v.in_range (omega arith)
            ∙ ap some (take_of_length-le c.size _ (length_all c v)))
    | inr e ↦
        rw (e, contents_of)
          (collect_lem c.idx 0 v v.nonempty (omega arith)
            ∙ ap some (take-append_of_le c.idx c.items [] (omega arith)))
  ]

  length-contents : {c : CirQueue A} → IsValid c → length (contents c) ≡ size_of c
  unfolding contents contents_of size_of
  length-contents {c} v = ground (
    arith,
    length-append (drop c.idx c.items) (take c.idx c.items),
    length-drop c.idx c.items,
    length-take_of_le c.idx c.items,
  )

  rotated-set :
      (xs : List A) (i : ℕ) (x : A)
      → i < length xs
      → rotated (set xs i x) (suc i) ≡ drop (suc i) xs ++ (take i xs ++ (x ∷ []))
  rotated-set xs i x h = rw (drop-set xs i x, take-set xs i x h)

  -- The storage read round from the index that a push moves to.
  rotated_next :
      {c : CirQueue A} (x : A)
      → IsValid c
      → rotated (set c.items c.idx x) (next_index c c.idx)
        ≡ drop (suc c.idx) c.items ++ (take c.idx c.items ++ (x ∷ []))
  rotated_next {c} x v = elim (dec_lt (suc c.idx) c.size) [
    | yes p ↦
        rw (next_index_inside c.idx v (omega arith), add-one)
          (rotated-set c.items c.idx x (omega arith))
    | no p ↦ rw (next_index_last c.idx v (omega arith)) (
        sym (
          rotated_end (set c.items c.idx x) (suc c.idx) (omega (arith, length-set c.items c.idx x)))
        ∙ rotated-set c.items c.idx x (omega arith))
  ]

  keep_all : (n : ℕ) (xs : List A) → length xs ≤ n → keep_newest n xs ≡ xs
  unfolding keep_newest
  keep_all n xs h = let e : length xs - n ≡ 0 = omega arith in rw e

  -- A full queue drops its oldest entry.
  full_step :
      {c : CirQueue A} (x : A)
      → IsValid c
      → keep_newest c.size (rotated c.items c.idx ++ (x ∷ []))
        ≡ drop (suc c.idx) c.items ++ (take c.idx c.items ++ (x ∷ []))
  unfolding keep_newest
  full_step {c} x v =
      let (y, e) = get_elem?_of_lt c.items c.idx (omega arith) in
      let n : length (rotated c.items c.idx ++ (x ∷ [])) - c.size ≡ 1 = omega (
        arith,
        length-append (rotated c.items c.idx) (x ∷ []),
        length-append (drop c.idx c.items) (take c.idx c.items),
        length-drop c.idx c.items,
        length-take_of_le c.idx c.items (omega arith),
      ) in
      rw (n, drop_at c.items c.idx y e)
        (append_assoc (drop (suc c.idx) c.items) (take c.idx c.items) (x ∷ []))

  length-take_next :
      {c : CirQueue A} (x : A) → IsValid c → length (take c.idx c.items ++ (x ∷ [])) ≡ c.idx + 1
  length-take_next {c} x v = omega (
    arith,
    length-append (take c.idx c.items) (x ∷ []),
    length-take_of_le c.idx c.items (omega arith),
  )

  -- A push appends to the contents, and drops the oldest entry of a full queue.
  contents-stored :
      {c : CirQueue A} (x : A)
      → IsValid c
      → contents (stored c x) ≡ keep_newest c.size (contents c ++ (x ∷ []))
  unfolding contents contents_of
  contents-stored {c} x v = elim (Bool-cases c.over) [
    | inl e ↦ ground (arith, rotated_next x v, full_step x v)
    | inr e ↦ elim (dec_lt (suc c.idx) c.size) [
      | yes p ↦ ground (
        arith,
        next_index_inside c.idx v (omega arith),
        add-one c.idx,
        take-set c.items c.idx x (omega arith),
        keep_all c.size (take c.idx c.items ++ (x ∷ [])) (omega (arith, length-take_next x v)),
      )
      | no p ↦ ground (
        arith,
        rotated_next x v,
        drop_of_length-le (suc c.idx) c.items (omega arith),
        keep_all c.size (take c.idx c.items ++ (x ∷ [])) (omega (arith, length-take_next x v)),
      )
    ]
  ]

  drop_one : (n : ℕ) (xs : List A) → drop 1 (drop n xs) ≡ drop (suc n) xs
  drop_one zero [] = refl
  drop_one zero (x ∷ xs) = refl
  drop_one (suc n) [] = refl
  drop_one (suc n) (x ∷ xs) = drop_one n xs

  -- Entries that were dropped once do not come back.
  keep-keep :
      (n : ℕ) (xs : List A) (x : A)
      → keep_newest n (keep_newest n xs ++ (x ∷ [])) ≡ keep_newest n (xs ++ (x ∷ []))
  keep-keep n xs x = elim (dec_le (length xs) n) [
    | yes p ↦ rw (keep_all n xs p)
    | no p ↦
        let d = length xs - n in
        let e : drop d xs ++ (x ∷ []) ≡ drop d (xs ++ (x ∷ [])) =
          sym (drop-append_of_le d xs (x ∷ []) (omega arith)) in
        let short : length (drop d xs ++ (x ∷ [])) - n ≡ 1 =
          omega (arith, length-append (drop d xs) (x ∷ []), length-drop d xs) in
        let long : length (xs ++ (x ∷ [])) - n ≡ suc d = omega (arith, length-append xs (x ∷ [])) in
        unfold keep_newest in rw (short, long, e) (drop_one d (xs ++ (x ∷ [])))
  ]

  -- `Push` on a valid queue succeeds, keeps it valid, and keeps the newest `size` entries.
  pub push_refines :
      {c : CirQueue A} (x : A)
      → IsValid c
      → (push c x ≡ some (stored c x))
        × IsValid (stored c x)
        × (contents (stored c x) ≡ keep_newest c.size (contents c ++ (x ∷ [])))
  push_refines {c} x v = let e = push_total x v in (e, push-IsValid x v e, contents-stored x v)

  push_all_refines :
      (xs hist : List A) {c : CirQueue A}
      → IsValid c
      → contents c ≡ keep_newest c.size hist
      → (c' : CirQueue A) × (push_all c xs ≡ some c')
        × IsValid c'
        × (contents c' ≡ keep_newest c.size (hist ++ xs))
  unfolding push_all
  push_all_refines [] hist {c} v e = (c, refl, v, rw append-nil e)
  push_all_refines (x ∷ xs) hist {c} v e =
      let (pushed, valid, held) = push_refines x v in
      let held' : contents (stored c x) ≡ keep_newest c.size (hist ++ (x ∷ [])) =
        held ∙ rw e (keep-keep c.size hist x) in
      let (c', run, v', h') = push_all_refines xs (hist ++ (x ∷ [])) valid held' in
      (c', rw (pushed, push_all) run, v', rw append_assoc at h')

  -- Whatever is pushed into a new queue of 1 to 255 places, no push panics, and `Range` lists the
  -- newest `size` entries in the order in which they were pushed.
  pub range-push_all :
      (z : A) (n : ℕ) (xs : List A)
      → 0 < n
      → n < 256
      → (c : CirQueue A) × (push_all (new z n) xs ≡ some c) × (range c ≡ some (keep_newest n xs))
  unfolding new contents contents_of
  range-push_all z n xs p q =
      let start : [] ≡ keep_newest n [] = sym (keep_all n [] (omega arith)) in
      let (c, run, v, held) = push_all_refines xs [] (new-IsValid z n p q) start in
      (c, run, range-contents v ∙ ap some held)
