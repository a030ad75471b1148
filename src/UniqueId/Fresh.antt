-- ===== src/UniqueId/Fresh.antt =====
-- An id that is handed out was not in the table before and is now.
use goddd.Common.{
  ℕ, zero, suc, ◌+◌, ◌≤◌, ◌<◌, ◌≡◌, ◌≢◌, ◌⊎◌, inl, inr, refl, sym, ap, ◌∙◌, Bool, true, false, ◌||◌,
  Bool-cases, ◌++◌, Option, none, some, arith, length,
}
use mathlib.Core.Path.{subst}
use mathlib.Core.Option.{some-injective}
use goddd.Common.Text.{Bytes, same, same_iff}
use goddd.UniqueId.{Storer, Manager, attempts, lengths, unique_id, unknown}
use goddd.UniqueId.Generate.{AllFrom, generate_lem}

module _ (st : Storer) (noise : ℕ → ℕ) where
  -- The table `d'` is `d` and one new id: the prefix, and from `lo` to below `hi` of the letters.
  pub record IsCreated (letters pre : Bytes) (lo hi : ℕ) (d d' : st.Db) (id : Bytes) : Type 0 where
    pub absent : st.has d id ≡ false
    pub added : (j : Bytes) → st.has d' j ≡ (same id j || st.has d j)
    pub text : Bytes
    pub shape : id ≡ pre ++ text
    pub at_least : lo ≤ length text
    pub below : length text < hi
    pub of_letters : AllFrom letters text

  -- A loop that ends without an id has left the table as it was; one that ends with an id has
  -- created it. The letters are kept.
  abbrev Empty : Manager st noise → Option (Manager st noise × Option Bytes) → Type 0
  Empty m r =
      (m' : Manager st noise) × (r ≡ some (m', none))
      × (m'.letter_bytes ≡ m.letter_bytes)
      × (m'.db ≡ m.db)

  abbrev Found :
      Bytes → ℕ → ℕ → Manager st noise → Option (Manager st noise × Option Bytes) → Type 0
  Found pre lo hi m r =
      (m' : Manager st noise) × (id : Bytes) × (r ≡ some (m', some id))
      × (m'.letter_bytes ≡ m.letter_bytes)
      × IsCreated m.letter_bytes pre lo hi m.db m'.db id

  -- Wider bounds hold too, and so does what holds of an equal table and letters.
  widen :
      (letters letters' pre : Bytes) (lo lo' hi hi' : ℕ) (d₀ d d' : st.Db) (id : Bytes)
      → letters' ≡ letters
      → d ≡ d₀
      → lo' ≤ lo
      → hi ≤ hi'
      → IsCreated letters' pre lo hi d d' id
      → IsCreated letters pre lo' hi' d₀ d' id
  widen letters letters' pre lo lo' hi hi' d₀ d d' id l e p q h = record {
    absent = subst (λ (t : st.Db). st.has t id ≡ false) e h.absent;
    added = λ j. subst (λ (t : st.Db). st.has d' j ≡ (same id j || st.has t j)) e (h.added j);
    text = h.text;
    shape = h.shape;
    at_least = omega (arith, h.at_least);
    below = omega (arith, h.below);
    of_letters = subst (λ (s : Bytes). AllFrom s h.text) l h.of_letters;
  }

  attempts_lem :
      (r : ℕ) (pre : Bytes) (n : ℕ) (m : Manager st noise)
      → 0 < length m.letter_bytes
      → Empty m (attempts st noise r pre n m) ⊎ Found pre n (suc n) m (attempts st noise r pre n m)
  unfolding attempts
  attempts_lem zero pre n m h = inl (m, refl, refl, refl)
  attempts_lem (suc r) pre n m h =
      let (w, at', made, len, from) = generate_lem noise m.letter_bytes n m.at h in
      let id = pre ++ w in
      let next = record m { db = (st.create id m.db).0; at = at' } in
      elim (Bool-cases (st.create id m.db).1) [
        | inl created ↦
            let fresh : IsCreated m.letter_bytes pre n (suc n) m.db next.db id = record {
              absent = st.create_new id m.db created;
              added = λ j. st.create_adds id j m.db created;
              text = w;
              shape = refl;
              at_least = omega (arith, len);
              below = omega (arith, len);
              of_letters = from;
            } in
            inr (next, id, rw (made, attempts) (rw created), refl, fresh)
        | inr failed ↦
            let same_table = st.create_fails id m.db failed in
            elim (attempts_lem r pre n next h) [
              | inl (m', run, kept, out) ↦
                  inl (m', rw (made, attempts) (rw failed run), kept, out ∙ same_table)
              | inr (m', id', run, kept, out) ↦ inr (
                m',
                id',
                rw (made, attempts) (rw failed run),
                kept,
                widen m.letter_bytes m.letter_bytes pre n n (suc n) (suc n) m.db next.db m'.db id'
                    refl same_table (omega arith) (omega arith) out,
              )
            ]
      ]

  lengths_lem :
      (r : ℕ) (pre : Bytes) (n hi : ℕ) (m : Manager st noise)
      → 0 < length m.letter_bytes
      → n + r ≤ hi
      → Empty m (lengths st noise r pre n m) ⊎ Found pre n hi m (lengths st noise r pre n m)
  unfolding lengths
  lengths_lem zero pre n hi m h b = inl (m, refl, refl, refl)
  lengths_lem (suc r) pre n hi m h b = elim (attempts_lem 36 pre n m h) [
    | inr (m', id, run, kept, out) ↦ inr (
      m',
      id,
      rw (run, lengths) refl,
      kept,
      widen m.letter_bytes m.letter_bytes pre n n (suc n) hi m.db m.db m'.db id refl refl
          (omega arith) (omega arith) out,
    )
    | inl (m', run, kept, out) ↦
        elim (lengths_lem r pre (n + 1) hi m' (rw kept h) (omega (arith, b))) [
          | inl (last, run', kept', out') ↦
              inl (last, rw (run, lengths) run', kept' ∙ kept, out' ∙ out)
          | inr (last, id, run', kept', out') ↦ inr (
            last,
            id,
            rw (run, lengths) run',
            kept' ∙ kept,
            widen m.letter_bytes m'.letter_bytes pre (n + 1) n hi hi m.db m'.db last.db id kept out
                (omega arith) (omega arith) out',
          )
        ]
  ]

  -- `UniqueID`, with letters to choose from, always returns. Either the id has been created, was not
  -- there before, and is the prefix with `n` to `n + 9` letters of the set; or the text is "unknown"
  -- and the table is as it was. The letters of the manager are kept.
  pub unique_id_lem :
      (pre : Bytes) (n : ℕ) (m : Manager st noise)
      → 0 < length m.letter_bytes
      → (m' : Manager st noise) × (id : Bytes) × (unique_id st noise pre n m ≡ some (m', id))
        × (m'.letter_bytes ≡ m.letter_bytes)
        × (IsCreated m.letter_bytes pre n (n + 10) m.db m'.db id
            ⊎ ((id ≡ unknown st noise) × (m'.db ≡ m.db)))
  unfolding unique_id
  unique_id_lem pre n m h = elim (lengths_lem 10 pre n (n + 10) m h (omega arith)) [
    | inr (m', id, run, kept, out) ↦ (m', id, rw (run, unique_id) refl, kept, inl out)
    | inl (m', run, kept, out) ↦
        (m', unknown st noise, rw (run, unique_id) refl, kept, inr (refl, out))
  ]

  -- What a call that does not answer "unknown" has done.
  known :
      (pre : Bytes) (n : ℕ) (m m' : Manager st noise) (id : Bytes)
      → 0 < length m.letter_bytes
      → unique_id st noise pre n m ≡ some (m', id)
      → id ≢ unknown st noise
      → (m'.letter_bytes ≡ m.letter_bytes) × IsCreated m.letter_bytes pre n (n + 10) m.db m'.db id
  known pre n m m' id h run k =
      let (m₁, id₁, run₁, kept, out) = unique_id_lem pre n m h in
      let e : (m₁, id₁) ≡ (m', id) = some-injective _ _ (sym run₁ ∙ run) in
      subst
        (λ (p : Manager st noise × Bytes).
          p.1 ≢ unknown st noise
          → (p.0.letter_bytes ≡ m.letter_bytes)
            × IsCreated m.letter_bytes pre n (n + 10) m.db p.0.db p.1)
        e (λ k₁. (kept, elim out [ inl c ↦ c | inr u ↦ absurd (k₁ u.0) ])) k

  -- Two calls one after the other, neither of which answers "unknown", give different ids.
  pub unique_id_twice :
      (pre pre' : Bytes) (n n' : ℕ) (m m' m'' : Manager st noise) (id id' : Bytes)
      → 0 < length m.letter_bytes
      → unique_id st noise pre n m ≡ some (m', id)
      → unique_id st noise pre' n' m' ≡ some (m'', id')
      → id ≢ unknown st noise
      → id' ≢ unknown st noise
      → id ≢ id'
  unique_id_twice pre pre' n n' m m' m'' id id' h run run' k k' same_id =
      let (kept, a) = known pre n m m' id h run k in
      let (_, b) = known pre' n' m' m'' id' (rw kept h) run' k' in
      let here : st.has m'.db id' ≡ true =
        a.added id' ∙ ap (λ (t : Bool). t || st.has m.db id') ((same_iff id id').1 same_id) in
      ground (arith, here, b.absent)
