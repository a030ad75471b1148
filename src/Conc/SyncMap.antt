-- ===== src/Conc/SyncMap.antt =====
-- pkg/conc/sync_map.go: `Map[K, V]` over the standard library's `sync.Map`.
-- A `sync.Map` is an association list from keys to values of type `any`; a value that is a nil
-- interface is `none` there. Each call of it is atomic, so each is one function here.
pub mod View
pub mod Boxed
pub mod Compare
pub mod Listing
pub mod Laws
pub mod Size
mod Examples
use goddd.Common.{
  ℕ, ◌+◌, ◌≡◌, Bool, true, false, List, [], ◌∷◌, ◌++◌, Option, none, some, if◌then◌else◌, ite,
}
use goddd.Common.Assoc.{lookup, insert, erase}

-- How values of a type `V` turn into `any` and back: the nil test is true only at the zero value.
-- For a struct or a number it is false throughout.
pub record Boxing {ℓ} (V : Type ℓ) : Type ℓ where
  pub zero_value : V
  pub is_nil : V → Bool
  pub nil_is_zero : (v : V) → is_nil v ≡ true → v ≡ zero_value

pub record Map {ℓ} (K V : Type ℓ) : Type ℓ where
  pub entries : List (K × Option V)

module _ {ℓ} {V : Type ℓ} (b : Boxing V) where
  abbrev pub box : V → Option V
  box v = if b.is_nil v then none else some v

  -- The type assertion behind the test for nil.
  abbrev pub unbox : Option V → V
  unbox none = b.zero_value
  unbox (some v) = v

  -- A result `(value, ok)` of the source.
  abbrev pub found : Option (Option V) → V × Bool
  found none = (b.zero_value, false)
  found (some x) = (unbox x, true)

module _ {ℓ} {K V : Type ℓ} where
  unfoldable pub new_map : Map K V
  new_map = record { entries = [] }

module _ {ℓ} {K V : Type ℓ} (dec : Discrete K) (b : Boxing V) where
  pub store : K → V → Map K V → Map K V
  store k v m = record { entries = insert dec k (box b v) m.entries }

  unfoldable pub load : K → Map K V → V × Bool
  load k m = found b (lookup dec k m.entries)

  pub load_or_store : K → V → Map K V → Map K V × (V × Bool)
  load_or_store k v m = elim (lookup dec k m.entries) [
    | none ↦ (record { entries = insert dec k (box b v) m.entries }, (unbox b (box b v), false))
    | some x ↦ (m, (unbox b x, true))
  ]

  pub load_and_delete : K → Map K V → Map K V × (V × Bool)
  load_and_delete k m =
      (record { entries = erase dec k m.entries }, found b (lookup dec k m.entries))

  pub delete : K → Map K V → Map K V
  delete k m = record { entries = erase dec k m.entries }

  pub swap : K → V → Map K V → Map K V × (V × Bool)
  swap k v m =
      (record { entries = insert dec k (box b v) m.entries }, found b (lookup dec k m.entries))

  -- Go compares two values of type `any`; `dec_any` is that comparison, at comparable types.
  module _ (dec_any : Discrete (Option V)) where
    pub compare_and_swap : K → V → V → Map K V → Map K V × Bool
    compare_and_swap k old ne m = elim (lookup dec k m.entries) [
      | none ↦ (m, false)
      | some x ↦
          ite (dec_any x (box b old)) (record { entries = insert dec k (box b ne) m.entries }, true)
            (m, false)
    ]

    pub compare_and_delete : K → V → Map K V → Map K V × Bool
    compare_and_delete k old m = elim (lookup dec k m.entries) [
      | none ↦ (m, false)
      | some x ↦
          ite (dec_any x (box b old)) (record { entries = erase dec k m.entries }, true) (m, false)
    ]

module _ {ℓ} {K V : Type ℓ} where
  -- `sync.Map.Range`: the callback sees each entry, and stops the walk by returning false. What it
  -- captures is the state `S`.
  unfoldable pub walk {κ} :
      {S : Type κ} → (K → Option V → S → S × Bool) → List (K × Option V) → S → S
  walk f [] s = s
  walk f ((k, x) ∷ l) s =
      let rest = walk f l (f k x s).0 in if (f k x s).1 then rest else (f k x s).0

  unfoldable pub range {κ} : {S : Type κ} → Boxing V → (K → V → S → S × Bool) → Map K V → S → S
  unfolding walk
  range b f m s = walk (λ k x. f k (unbox b x)) m.entries s

  pub len : Map K V → ℕ
  unfolding walk
  len m = walk (λ k x count. (count + 1, true)) m.entries 0

  -- The callback appends to a slice that it captures.
  pub keys : Map K V → List K
  unfolding walk
  keys m = walk (λ k x acc. (acc ++ (k ∷ []), true)) m.entries []

  pub values : Boxing V → Map K V → List V
  unfolding walk
  values b m = walk (λ k x acc. (acc ++ (unbox b x ∷ []), true)) m.entries []

  -- `Clear` deletes each key that the walk meets.
  pub clear : Discrete K → Map K V → Map K V
  unfolding walk
  clear dec m = record {
    entries = walk (λ k x entries. (erase dec k entries, true)) m.entries m.entries;
  }
