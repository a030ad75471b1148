-- ===== src/Conc/SyncMap/Laws.antt =====
-- Sequences of calls of the generic map, against a partial function from keys to values.
use goddd.Common.{
  ◌∙◌, ap, if_neg, if_pos, ◌≡◌, refl, Bool, true, false, Option-cases, inl, inr, List, [], ◌∷◌,
  Option, none, some, ite,
}
use goddd.Common.Assoc.{insert, erase, lookup, insert-IsDistinct, erase-IsDistinct}
use goddd.Conc.SyncMap.{
  Boxing, Map, box, store, load, load_or_store, load_and_delete, delete, swap, clear,
  compare_and_swap, compare_and_delete,
}
use goddd.Conc.SyncMap.Size.{IsMap, clear-IsMap}
use goddd.Conc.SyncMap.View.{
  view, changed, answer, unbox-box, view-insert, view-erase, view-clear, view_of_none, view_of_some,
  found-view,
}
use goddd.Conc.SyncMap.Boxed.{IsBoxed, insert-IsBoxed, erase-IsBoxed, clear-IsBoxed}
use goddd.Conc.SyncMap.Compare.{Compares, compare_and_swap-Compares, compare_and_delete-Compares}
use mathlib.Core.Path.{subst}
use goddd.Conc.SyncMap.Listing.{Lists, Map-Lists}

-- A call of the map that may change it, or that asks for one key.
pub data Op {ℓ} (K V : Type ℓ) : Type ℓ where
  op_store : K → V → Op K V
  op_load : K → Op K V
  op_load_or_store : K → V → Op K V
  op_load_and_delete : K → Op K V
  op_delete : K → Op K V
  op_swap : K → V → Op K V
  op_compare_and_swap : K → V → V → Op K V
  op_compare_and_delete : K → V → Op K V
  op_clear : Op K V

-- What a call returns: nothing, a value and whether there was one, or whether it did what it says.
pub data Answer {ℓ} (V : Type ℓ) : Type ℓ where
  nothing : Answer V
  pair : V × Bool → Answer V
  success : Bool → Answer V

-- `same_any` compares two values of type `any`, and `same_v` two values of the map.
module _ {ℓ} {K V : Type ℓ} (dec : Discrete K) (b : Boxing V) (same_any : Discrete (Option V))
    (same_v : Discrete V) where
  -- The map after a call, and what the call returns.
  unfoldable pub step : Op K V → Map K V → Map K V × Answer V
  step (op_store k v) m = (store dec b k v m, nothing)
  step (op_load k) m = (m, pair (load dec b k m))
  step (op_load_or_store k v) m = let (m', r) = load_or_store dec b k v m in (m', pair r)
  step (op_load_and_delete k) m = let (m', r) = load_and_delete dec b k m in (m', pair r)
  step (op_delete k) m = (delete dec b k m, nothing)
  step (op_swap k v) m = let (m', r) = swap dec b k v m in (m', pair r)
  step (op_compare_and_swap k old ne) m =
      let (m', r) = compare_and_swap dec b same_any k old ne m in (m', success r)
  step (op_compare_and_delete k old) m =
      let (m', r) = compare_and_delete dec b same_any k old m in (m', success r)
  step op_clear m = (clear dec m, nothing)

  -- The same of a function.
  pub spec_step : Op K V → (K → Option V) → (K → Option V) × Answer V
  spec_step (op_store k v) f = (changed dec b k (some v) f, nothing)
  spec_step (op_load k) f = (f, pair (answer dec b (f k)))
  spec_step (op_load_or_store k v) f = elim (f k) [
    | none ↦ (changed dec b k (some v) f, pair (v, false))
    | some w ↦ (f, pair (w, true))
  ]
  spec_step (op_load_and_delete k) f = (changed dec b k none f, pair (answer dec b (f k)))
  spec_step (op_delete k) f = (changed dec b k none f, nothing)
  spec_step (op_swap k v) f = (changed dec b k (some v) f, pair (answer dec b (f k)))
  spec_step (op_compare_and_swap k old ne) f = elim (f k) [
    | none ↦ (f, success false)
    | some w ↦ ite (same_v w old) (changed dec b k (some ne) f, success true) (f, success false)
  ]
  spec_step (op_compare_and_delete k old) f = elim (f k) [
    | none ↦ (f, success false)
    | some w ↦ ite (same_v w old) (changed dec b k none f, success true) (f, success false)
  ]
  spec_step op_clear f = ((λ j. none), nothing)

  view-Lists {κ} :
      {S : Type κ} (f : K → V → S → S × Bool) (s : S) (m : Map K V)
      → IsMap dec m
      → Lists dec b f s m (view dec b m)
  unfolding view
  view-Lists f s m d = Map-Lists dec b f s m d

  -- What a step keeps: distinct keys, and values held as `Store` boxes them.
  abbrev pub IsSound : Map K V → Type ℓ
  IsSound m = IsMap dec m × IsBoxed dec b m

  insert-IsSound :
      (k : K) (v : V) (m : Map K V)
      → IsSound m
      → IsSound (record { entries = insert dec k (box b v) m.entries })
  insert-IsSound k v m (d, i) =
      (insert-IsDistinct dec k (box b v) m.entries d, insert-IsBoxed dec b k v m i)

  erase-IsSound :
      (k : K) (m : Map K V) → IsSound m → IsSound (record { entries = erase dec k m.entries })
  erase-IsSound k m (d, i) = (erase-IsDistinct dec k m.entries d, erase-IsBoxed dec b k m i)

  compared-IsSound :
      (m m' : Map K V) (k : K) (old : V) (out : Map K V × Bool)
      → Compares dec b same_any m k old m' out
      → IsSound m
      → IsSound m'
      → IsSound out.0
  compared-IsSound m m' k old out (inl (_, e)) i j = rw e i
  compared-IsSound m m' k old out (inr (w, _, inl (_, e))) i j = rw e j
  compared-IsSound m m' k old out (inr (w, _, inr (_, e))) i j = rw e i

  step-IsSound : (op : Op K V) (m : Map K V) → IsSound m → IsSound (step op m).0
  unfolding step store load_or_store load_and_delete delete swap
  step-IsSound (op_store k v) m i = insert-IsSound k v m i
  step-IsSound (op_load k) m i = i
  step-IsSound (op_load_or_store k v) m i = elim (Option-cases (lookup dec k m.entries)) [
    | inl e ↦ rw (e, load_or_store, step) (insert-IsSound k v m i)
    | inr (x, e) ↦ rw (e, load_or_store, step) i
  ]
  step-IsSound (op_load_and_delete k) m i = erase-IsSound k m i
  step-IsSound (op_delete k) m i = erase-IsSound k m i
  step-IsSound (op_swap k v) m i = insert-IsSound k v m i
  step-IsSound (op_compare_and_swap k old ne) m i =
      compared-IsSound m (record { entries = insert dec k (box b ne) m.entries }) k old
        (compare_and_swap dec b same_any k old ne m)
        (compare_and_swap-Compares dec b same_any k old ne m i.1) i (insert-IsSound k ne m i)
  step-IsSound (op_compare_and_delete k old) m i =
      compared-IsSound m (record { entries = erase dec k m.entries }) k old
        (compare_and_delete dec b same_any k old m)
        (compare_and_delete-Compares dec b same_any k old m i.1) i (erase-IsSound k m i)
  step-IsSound op_clear m i = (clear-IsMap dec m i.0, clear-IsBoxed dec b m)

  -- What a comparison answers in the specification.
  abbrev compared : (K → Option V) → V → (K → Option V) → Option V → (K → Option V) × Answer V
  compared f old f' o = elim o [
    | none ↦ (f, success false)
    | some w ↦ ite (same_v w old) (f', success true) (f, success false)
  ]

  compared_refines :
      (m m' : Map K V) (k : K) (old : V) (out : Map K V × Bool)
      → Compares dec b same_any m k old m' out
      → ◌≡◌ {A = (K → Option V) × Answer V}
          (view dec b out.0, success out.1)
          (compared (view dec b m) old (view dec b m') (view dec b m k))
  compared_refines m m' k old out (inl (missing, e)) = rw (missing, e) refl
  compared_refines m m' k old out (inr (w, at_k, inl (same, e))) =
      rw (at_k, e) (rw (if_pos (same_v w old) same) refl)
  compared_refines m m' k old out (inr (w, at_k, inr (other, e))) =
      rw (at_k, e) (rw (if_neg (same_v w old) other) refl)

  -- Each call returns what the specification returns, and leaves the map that it describes.
  step_refines :
      (op : Op K V) (m : Map K V)
      → IsBoxed dec b m
      → ◌≡◌ {A = (K → Option V) × Answer V}
          (view dec b (step op m).0, (step op m).1)
          (spec_step op (view dec b m))
  unfolding step spec_step store load load_or_store load_and_delete delete swap
  step_refines (op_store k v) m i = rw (view-insert dec b k v m) refl
  step_refines (op_load k) m i = rw (found-view dec b k m) refl
  step_refines (op_load_or_store k v) m i = elim (Option-cases (lookup dec k m.entries)) [
    | inl e ↦
        rw (e, load_or_store, step)
          (rw (view_of_none dec b k m e, spec_step)
            (rw (view-insert dec b k v m, unbox-box dec b v) refl))
    | inr (x, e) ↦ rw (e, load_or_store, step) (rw (view_of_some dec b k m x e, spec_step))
  ]
  step_refines (op_load_and_delete k) m i = rw (view-erase dec b k m, found-view dec b k m) refl
  step_refines (op_delete k) m i = rw (view-erase dec b k m) refl
  step_refines (op_swap k v) m i = rw (view-insert dec b k v m, found-view dec b k m) refl
  step_refines (op_compare_and_swap k old ne) m i =
      compared_refines m (record { entries = insert dec k (box b ne) m.entries }) k old
        (compare_and_swap dec b same_any k old ne m)
        (compare_and_swap-Compares dec b same_any k old ne m i)
      ∙ ap (λ f. compared (view dec b m) old f (view dec b m k)) (view-insert dec b k ne m)
  step_refines (op_compare_and_delete k old) m i =
      compared_refines m (record { entries = erase dec k m.entries }) k old
        (compare_and_delete dec b same_any k old m)
        (compare_and_delete-Compares dec b same_any k old m i)
      ∙ ap (λ f. compared (view dec b m) old f (view dec b m k)) (view-erase dec b k m)
  step_refines op_clear m i = rw (view-clear dec b m) refl

  unfoldable pub run : List (Op K V) → Map K V → Map K V × List (Answer V)
  run [] m = (m, [])
  run (op ∷ ops) m = let (m', r) = step op m in let (m'', rs) = run ops m' in (m'', r ∷ rs)

  pub spec_run : List (Op K V) → (K → Option V) → (K → Option V) × List (Answer V)
  spec_run [] f = (f, [])
  spec_run (op ∷ ops) f =
      let (f', r) = spec_step op f in let (f'', rs) = spec_run ops f' in (f'', r ∷ rs)

  run-IsSound : (ops : List (Op K V)) (m : Map K V) → IsSound m → IsSound (run ops m).0
  unfolding run
  run-IsSound [] m i = i
  run-IsSound (op ∷ ops) m i = run-IsSound ops (step op m).0 (step-IsSound op m i)

  run_refines_keyed :
      (ops : List (Op K V)) (m : Map K V)
      → IsSound m
      → ◌≡◌ {A = (K → Option V) × List (Answer V)}
          (view dec b (run ops m).0, (run ops m).1)
          (spec_run ops (view dec b m))
  unfolding run spec_run
  run_refines_keyed [] m i = refl
  run_refines_keyed (op ∷ ops) m i =
      rw (← step_refines op m i.1)
        (rw (← run_refines_keyed ops (step op m).0 (step-IsSound op m i)))

  -- Any sequence of Store, Load, LoadOrStore, LoadAndDelete, Delete, Swap, CompareAndSwap, CompareAndDelete
  -- and Clear, on a map that holds no key twice and each value as Store boxes it, returns what the
  -- same calls on a partial function return, nil values included, and the map that is left holds what
  -- the function holds: then Range, Len, Keys and Values go through one list of pairs, in which each
  -- key of the function stands once, with its value.
  pub run_refines {κ} :
      {S : Type κ} (f : K → V → S → S × Bool) (s : S) (ops : List (Op K V)) (m : Map K V)
      → IsSound m
      → (◌≡◌ {A = (K → Option V) × List (Answer V)}
          (view dec b (run ops m).0, (run ops m).1)
          (spec_run ops (view dec b m)))
        × Lists dec b f s (run ops m).0 (spec_run ops (view dec b m)).0
  run_refines f s ops m i =
      let same = run_refines_keyed ops m i in
      (
        same,
        subst (Lists dec b f s (run ops m).0) (ap (λ r. r.0) same)
            (view-Lists f s (run ops m).0 (run-IsSound ops m i).0),
      )
