-- ===== src/Hook/Array.antt =====
-- pkg/hook/array.go. A Go map whose values are empty structs is an association list to `Present`.
pub mod Dedup
pub mod Reverse
mod Examples
use goddd.Common.{
  ℕ, zero, suc, ◌+◌, ◌-◌, ◌*◌, ◌≡◌, Bool, true, false, ◌||◌, List, [], ◌∷◌, Option, none, some, ltb,
  ◌==◌, length, get_elem?, set, if◌then◌else◌,
}
use goddd.Common.Assoc.{lookup, insert}

-- `struct{}`
pub data Present : Type 0 where
  present : Present

-- `arr[i], arr[j] = arr[j], arr[i]`: both are read first. Out of range is a panic.
unfoldable pub exchange {ℓ} : {A : Type ℓ} → ℕ → ℕ → List A → Option (List A)
exchange i j arr = elim (get_elem? arr i) [
  | none ↦ none
  | some x ↦ elim (get_elem? arr j) [ none ↦ none | some y ↦ some (set (set arr i y) j x) ]
]

-- The loop of `Reverse`, on fuel: each round moves both ends.
pub reverse_loop {ℓ} : {A : Type ℓ} → ℕ → ℕ → ℕ → List A → Option (List A)
unfolding exchange
reverse_loop zero i j arr = some arr
reverse_loop (suc fuel) i j arr =
    if ltb i j
    then elim (exchange i j arr) [
      | none ↦ none
      | some arr' ↦ reverse_loop fuel (i + 1) (j - 1) arr'
    ]
    else some arr

-- `len(s) - 1` is -1 of an empty slice, which ends the loop at once, as 0 does.
pub reverse {ℓ} : {A : Type ℓ} → List A → Option (List A)
unfolding reverse_loop
reverse s = reverse_loop (length s) 0 (length s - 1) s

module _ {T : Type 0} (dec : Discrete T) where
  unfoldable pub key_set : List T → List (T × Present) → List (T × Present)
  key_set [] m = m
  key_set (v ∷ vs) m = key_set vs (insert dec v present m)

  pub unique : List T → Bool
  unfolding key_set
  unique values = length values == length (key_set values [])

pub any {ℓ} : {T : Type ℓ} → List T → (T → Bool) → Bool
any [] callback = false
any (v ∷ vs) callback = callback v || any vs callback

module _ {T K : Type 0} (dec : Discrete K) where
  -- The loop of `DeduplicationFunc`: the keys that were seen, and the slice so far in the result.
  pub dedup_loop : (T → K) → List T → List (K × Present) → List T
  dedup_loop fn [] seen = []
  dedup_loop fn (v ∷ vs) seen = elim (lookup dec (fn v) seen) [
    | none ↦ v ∷ dedup_loop fn vs (insert dec (fn v) present seen)
    | some _ ↦ dedup_loop fn vs seen
  ]

  pub deduplication_func : List T → (T → K) → List T
  unfolding dedup_loop
  deduplication_func vs fn = dedup_loop fn vs []

pub deduplication : {T : Type 0} → Discrete T → List T → List T
unfolding dedup_loop
deduplication dec vs = dedup_loop dec (λ v. v) vs []
