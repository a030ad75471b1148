-- ===== src/System/EmptyDirs/Empty/Walked.antt =====
-- What the walk has counted, and what is removed after it.
use goddd.System.EmptyDirs.Empty.Rounds.{rounds-Inv}
use mathlib.Core.Option.{some-injective}
use goddd.Common.Int.{ltb_ℤ, ℤ, pos}
use goddd.Common.Assoc.{lookup, insert}
use goddd.System.EmptyDirs.Empty.Counted.{is_same_cases, has, count_of-insert, children}
use goddd.System.EmptyDirs.Empty.{
  is_same_cases, count_of-insert, AllEmpty, has, insert-HasKeys, cons-IsKnown, count_path-HasKeys,
  count_path-HasParents, count_path-HasCounts, IsKnown, children, Inv,
}
use goddd.System.EmptyDirs.{
  rounds, Ended, remove_empty_dirs, count_of, is_same, walk, initial, visit, pos, insert,
  count_path, Visit, State,
}
use mathlib.Core.Path.{subst}
use goddd.Common.{
  Bool, ◌||◌, ap, Option-cases, not, sym, ◌&&◌, arith, [], ◌∙◌, Bool-cases, List, Option, ◌∷◌, inr,
  inl, some, none, true, ◌≢◌, ◌⊎◌, ◌≡◌,
}

module _ {P : Type 0} (dec : Discrete P) (parent : P → P) (root : P) where
  -- What filepath.Walk calls its function with, when `s` is what it has counted: the root, or a path of
  -- which no child was visited before, other than the parent of the root, and below a directory that
  -- was counted.
  abbrev pub IsVisit : Visit P → State P → Type 0
  IsVisit v s =
      (v.path ≡ root)
      ⊎ ((children dec parent v.path s.counted ≡ 0)
          × (v.path ≢ parent root)
          × IsKnown dec parent root (parent v.path) s.counted)

  count_path-AllEmpty :
      (p : P) (s : State P)
      → AllEmpty dec parent root s.removed
      → AllEmpty dec parent root (count_path dec parent p s).removed
  unfolding count_path
  count_path-AllEmpty p s all = elim (Bool-cases (is_same dec parent (parent p) p)) [
    | inl b ↦ rw b all
    | inr b ↦ rw b all
  ]

  has_self : (p : P) (qs : List P) → has dec parent p (p ∷ qs) ≡ true
  unfolding has is_same
  has_self p qs = ground arith

  count_path-Inv :
      (p : P) (s : State P)
      → Inv dec parent root s
      → IsKnown dec parent root (parent p) s.counted
      → Inv dec parent root (count_path dec parent p s)
  count_path-Inv p s (hc, hp, hk, all) known = (
    count_path-HasCounts dec parent root p s hc,
    count_path-HasParents dec parent root p s hp known,
    count_path-HasKeys dec parent root p s known
        (λ k n found. cons-IsKnown dec parent root p k s.counted (hk k n found)) (λ e. hk),
    count_path-AllEmpty p s all,
  )

  set_zero-Inv :
      (p : P) (s : State P)
      → Inv dec parent root s
      → children dec parent p s.counted ≡ 0
      → p ≢ parent root
      → IsKnown dec parent root (parent p) s.counted
      → Inv dec parent root
          (count_path dec parent p (record s { counts = insert dec p (pos 0) s.counts }))
  set_zero-Inv p s (hc, hp, hk, all) z not_top known =
      let s0 : State P = record s { counts = insert dec p (pos 0) s.counts } in
      (
        count_path-HasCounts dec parent root p s0 (λ k.
            count_of-insert dec parent p k (pos 0) s.counts ∙ elim (is_same_cases dec parent p k) [
              | inr (c, n) ↦ rw c (hc k)
              | inl (c, e) ↦ elim (is_same_cases dec parent (parent root) k) [
                | inl (b, f) ↦ absurd (not_top (e ∙ sym f))
                | inr (b, n) ↦
                    (let none_there = sym (ap (λ j. children dec parent j s.counted) e) ∙ z in
                      rw (b, c) (ap pos (omega (arith, none_there))))
              ]
            ]),
        count_path-HasParents dec parent root p s0 hp known,
        count_path-HasKeys dec parent root p s0 known
            (insert-HasKeys dec parent root p (pos 0) s.counts (p ∷ s.counted)
              (inl (has_self p s.counted))
              (λ k n found. cons-IsKnown dec parent root p k s.counted (hk k n found)))
            (λ e.
              insert-HasKeys dec parent root p (pos 0) s.counts s.counted
                (subst (λ q. IsKnown dec parent root q s.counted) e known) hk),
        count_path-AllEmpty p s0 all,
      )

  -- What the function leaves, where it returns no error.
  abbrev pub after : Option (State P) → State P → State P
  after none s = s
  after (some s') s = s'

  parent-IsKnown :
      (v : Visit P) (s : State P) → IsVisit v s → IsKnown dec parent root (parent v.path) s.counted
  parent-IsKnown v s (inl e) = inr (ap parent e)
  parent-IsKnown v s (inr (z, not_top, known)) = known

  visit-Inv :
      (start end : ℤ) (v : Visit P) (s : State P)
      → Inv dec parent root s
      → IsVisit v s
      → Inv dec parent root (after (visit dec parent root start end v s) s)
  unfolding visit
  visit-Inv start end v s inv is = elim (Bool-cases v.failed) [
    | inl a ↦ rw a inv
    | inr a ↦ elim (Bool-cases (v.is_dir && not (is_same dec parent v.path root))) [
      | inr b ↦ rw (a, b) (count_path-Inv v.path s inv (parent-IsKnown v s is))
      | inl b ↦ elim (Bool-cases (ltb_ℤ v.mod_time start || ltb_ℤ end v.mod_time)) [
        | inl c ↦ rw (a, b, c) inv
        | inr c ↦
            rw (a, b, c)
              (elim is [
                | inl e ↦ elim (is_same_cases dec parent v.path root) [
                  | inl (d, f) ↦ absurd (ground (arith, b, d))
                  | inr (d, n) ↦ absurd (n e)
                ]
                | inr (z, not_top, known) ↦ set_zero-Inv v.path s inv z not_top known
              ])
      ]
    ]
  ]

  -- A list of visits that filepath.Walk may make.
  abbrev pub IsWalk : ℤ → ℤ → List (Visit P) → State P → Type 0
  IsWalk start end [] s = Unit
  IsWalk start end (v ∷ vs) s =
      IsVisit v s × IsWalk start end vs (after (visit dec parent root start end v s) s)

  walk-Inv :
      (start end : ℤ) (vs : List (Visit P)) (s t : State P)
      → Inv dec parent root s
      → IsWalk start end vs s
      → walk dec parent root start end vs s ≡ some t
      → Inv dec parent root t
  unfolding walk
  walk-Inv start end [] s t inv is e = subst (Inv dec parent root) (some-injective _ _ e) inv
  walk-Inv start end (v ∷ vs) s t inv is e =
      elim (Option-cases (visit dec parent root start end v s)) [
        | inl n ↦ absurd (ground (arith, n, e))
        | inr (s', found) ↦
            walk-Inv start end vs s' t
              (subst (λ o. Inv dec parent root (after o s)) found
                (visit-Inv start end v s inv is.0))
              (subst (λ o. IsWalk start end vs (after o s)) found is.1) (ground (arith, found, e))
      ]

  initial-Inv : Inv dec parent root (initial dec parent root)
  unfolding initial count_of lookup is_same has children
  initial-Inv = (
    (λ k. ground arith),
    (λ q there. cc),
    (λ k n found. elim (dec (parent root) k) [
      | yes e ↦ inr (sym e)
      | no m ↦ absurd (ground (arith, found, m))
    ]),
    tt,
  )

  -- For visits that filepath.Walk may make, whichever directories are outside the time range, in whichever
  -- order the rounds take the keys, and whichever removals fail: each directory that was removed held none
  -- of the paths that were counted and had not been removed themselves before it.
  pub remove_empty_dirs-AllEmpty :
      (start end : ℤ) (removes : P → Bool) (visits : List (Visit P))
      (schedule : List (Option (List P))) (s : State P) (ended : Ended)
      → IsWalk start end visits (initial dec parent root)
      → remove_empty_dirs dec parent root start end removes visits schedule ≡ some (s, ended)
      → AllEmpty dec parent root s.removed
  unfolding remove_empty_dirs
  remove_empty_dirs-AllEmpty start end removes visits schedule s ended is e =
      elim (Option-cases (walk dec parent root start end visits (initial dec parent root))) [
        | inl n ↦ absurd (ground (arith, n, e))
        | inr (t, found) ↦
            (let inv =
                rounds-Inv dec parent root removes schedule t
                  (walk-Inv start end visits (initial dec parent root) t initial-Inv is found) in
              let done : rounds dec parent removes schedule t ≡ (s, ended) =
                ground (arith, found, e) in
              subst (λ (o : State P × Ended). AllEmpty dec parent root o.0.removed) done inv.3)
      ]
