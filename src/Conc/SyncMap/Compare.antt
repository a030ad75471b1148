-- ===== src/Conc/SyncMap/Compare.antt =====
-- `CompareAndSwap` and `CompareAndDelete` of the generic map, case by case.
use goddd.Common.{
  if_neg, ◌⊎◌, if_pos, ◌≡◌, ◌≢◌, refl, Bool, true, false, Option-cases, inl, inr, Option, none,
  some,
}
use goddd.Common.Assoc.{lookup, insert, erase}
use goddd.Conc.SyncMap.{Boxing, Map, box, unbox, compare_and_swap, compare_and_delete}
use goddd.Conc.SyncMap.View.{view, view_of_none, view_of_some}
use goddd.Conc.SyncMap.Boxed.{IsBoxed, boxed_iff}

module _ {ℓ} {K V : Type ℓ} (dec : Discrete K) (b : Boxing V) (same_any : Discrete (Option V)) where
  -- What a call that compares may return: the map as it was if the key is missing or has another value,
  -- or the changed map.
  abbrev pub Compares : Map K V → K → V → Map K V → Map K V × Bool → Type ℓ
  Compares m k old m' out =
      ((view dec b m k ≡ none) × (out ≡ (m, false)))
      ⊎ ((w : V) × (view dec b m k ≡ some w)
          × (((w ≡ old) × (out ≡ (m', true))) ⊎ ((w ≢ old) × (out ≡ (m, false)))))

  pub compare_and_swap-Compares :
      (k : K) (old ne : V) (m : Map K V)
      → IsBoxed dec b m
      → Compares m k old
          (record { entries = insert dec k (box b ne) m.entries })
          (compare_and_swap dec b same_any k old ne m)
  unfolding compare_and_swap IsBoxed
  compare_and_swap-Compares k old ne m i = elim (Option-cases (lookup dec k m.entries)) [
    | inl e ↦ inl (view_of_none dec b k m e, rw (compare_and_swap, e) refl)
    | inr (x, e) ↦
        (let same = boxed_iff dec b x old (i k x e) in
          elim (same_any x (box b old)) [
            | yes p ↦ inr (
              unbox b x,
              view_of_some dec b k m x e,
              inl (same.0 p, rw (compare_and_swap, e) (if_pos (same_any x (box b old)) p _ _)),
            )
            | no n ↦ inr (
              unbox b x,
              view_of_some dec b k m x e,
              inr (
                (λ h. n (same.1 h)),
                rw (compare_and_swap, e) (if_neg (same_any x (box b old)) n _ _),
              ),
            )
          ])
  ]

  pub compare_and_delete-Compares :
      (k : K) (old : V) (m : Map K V)
      → IsBoxed dec b m
      → Compares m k old
          (record { entries = erase dec k m.entries })
          (compare_and_delete dec b same_any k old m)
  unfolding compare_and_delete IsBoxed
  compare_and_delete-Compares k old m i = elim (Option-cases (lookup dec k m.entries)) [
    | inl e ↦ inl (view_of_none dec b k m e, rw (compare_and_delete, e) refl)
    | inr (x, e) ↦
        (let same = boxed_iff dec b x old (i k x e) in
          elim (same_any x (box b old)) [
            | yes p ↦ inr (
              unbox b x,
              view_of_some dec b k m x e,
              inl (same.0 p, rw (compare_and_delete, e) (if_pos (same_any x (box b old)) p _ _)),
            )
            | no n ↦ inr (
              unbox b x,
              view_of_some dec b k m x e,
              inr (
                (λ h. n (same.1 h)),
                rw (compare_and_delete, e) (if_neg (same_any x (box b old)) n _ _),
              ),
            )
          ])
  ]
