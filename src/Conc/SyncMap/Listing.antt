-- ===== src/Conc/SyncMap/Listing.antt =====
-- What the calls that walk the map see: `Range`, `Len`, `Keys` and `Values`.
use mathlib.Core.Option
use goddd.Common.Assoc.{lookup, IsDistinct}
use goddd.Conc.SyncMap.{Boxing, Map, unbox, walk, range, len, keys, values}
use goddd.Conc.SyncMap.Size.{keys_lem, len_lem, IsMap}
use goddd.Common.{
  append_assoc, append-nil, sym, suc, if◌then◌else◌, ◌++◌, arith, length, ◌∙◌, ap, map, Option,
  Bool, true, ◌≡◌, refl, List, [], ◌∷◌,
}

-- A callback sees each pair of a list, and stops by returning false.
pub visit {ℓ κ} : {K V : Type ℓ} {S : Type κ} → (K → V → S → S × Bool) → List (K × V) → S → S
visit f [] s = s
visit f ((k, v) ∷ l) s =
    let rest = visit f l (f k v s).0 in if (f k v s).1 then rest else (f k v s).0

module _ {ℓ} {K V : Type ℓ} (dec : Discrete K) (b : Boxing V) where
  -- `Range`, `Len`, `Keys` and `Values` go through one list of pairs, in which each key that the function
  -- has stands once, with its value.
  abbrev pub Lists {κ} :
      {S : Type κ} → (K → V → S → S × Bool) → S → Map K V → (K → Option V) → Type (ℓ ⊔ κ)
  Lists f s m held =
      (l : List (K × V)) × IsDistinct dec l
      × ((k : K) → lookup dec k l ≡ held k)
      × (len m ≡ length l)
      × (keys m ≡ map (λ e. e.0) l)
      × (values b m ≡ map (λ e. e.1) l)
      × (range b f m s ≡ visit f l s)

  pairs : List (K × Option V) → List (K × V)
  pairs l = map (λ e. (e.0, unbox b e.1)) l

  lookup-pairs :
      (k : K) (l : List (K × Option V))
      → lookup dec k (pairs l) ≡ Option.map (unbox b) (lookup dec k l)
  unfolding lookup pairs
  lookup-pairs k [] = refl
  lookup-pairs k ((j, x) ∷ l) = ground (arith, lookup-pairs k l)

  pairs-IsDistinct : (l : List (K × Option V)) → IsDistinct dec l → IsDistinct dec (pairs l)
  unfolding pairs
  pairs-IsDistinct [] d = tt
  pairs-IsDistinct ((j, x) ∷ l) d =
      (lookup-pairs j l ∙ ap (Option.map (unbox b)) d.0, pairs-IsDistinct l d.1)

  map-pairs_key : (l : List (K × Option V)) → map (λ e. e.0) (pairs l) ≡ map (λ e. e.0) l
  unfolding pairs
  map-pairs_key [] = refl
  map-pairs_key ((k, x) ∷ l) = ap (◌∷◌ k) (map-pairs_key l)

  length-pairs : (l : List (K × Option V)) → length (pairs l) ≡ length l
  unfolding pairs
  length-pairs [] = refl
  length-pairs (e ∷ l) = ap suc (length-pairs l)

  values_lem :
      (l : List (K × Option V)) (acc : List V)
      → walk (λ k x acc. (acc ++ (unbox b x ∷ []), true)) l acc ≡ acc ++ map (λ e. e.1) (pairs l)
  unfolding walk pairs
  values_lem [] acc = sym (append-nil acc)
  values_lem ((k, x) ∷ l) acc =
      values_lem l (acc ++ (unbox b x ∷ [])) ∙ append_assoc acc (unbox b x ∷ []) _

  walk-visit {κ} :
      {S : Type κ} (f : K → V → S → S × Bool) (l : List (K × Option V)) (s : S)
      → walk (λ k x. f k (unbox b x)) l s ≡ visit f (pairs l) s
  unfolding walk visit pairs
  walk-visit f [] s = refl
  walk-visit f ((k, x) ∷ l) s =
      ap (λ r. if (f k (unbox b x) s).1 then r else (f k (unbox b x) s).0)
        (walk-visit f l (f k (unbox b x) s).0)

  pub Map-Lists {κ} :
      {S : Type κ} (f : K → V → S → S × Bool) (s : S) (m : Map K V)
      → IsMap dec m
      → Lists f s m (λ k. Option.map (unbox b) (lookup dec k m.entries))
  unfolding len keys values range
  Map-Lists f s m d = (
    pairs m.entries,
    pairs-IsDistinct m.entries d,
    (λ k. lookup-pairs k m.entries),
    omega (arith, len_lem m.entries 0, length-pairs m.entries),
    keys_lem m.entries [] ∙ sym (map-pairs_key m.entries),
    values_lem m.entries [],
    walk-visit f m.entries s,
  )
