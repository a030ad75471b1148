-- ===== src/Conc/SyncMap/Size.antt =====
-- `Len`, `Keys` and `Values` of the generic map: walks that do not stop early.
use mathlib.Core.HLevel.{⊥_prop}
use mathlib.Core.Logic.Or
use mathlib.Core.List.{
  Mem, Nodup, Nodup-cons, Nodup-nil, not-mem-nil, mem-cons_self, mem-cons_of_mem, mem-cons,
}
use goddd.Common.{
  some, ℕ, suc, ◌+◌, ◌≡◌, refl, sym, ap, ◌∙◌, ◌↔◌, ◌≢◌, true, List, [], ◌∷◌, ◌++◌, Option, none,
  arith, map, append-nil, append_assoc, length, Option-cases, inl, inr, if_neg, if_pos,
}
use goddd.Common.Assoc.{lookup, erase, IsDistinct, insert-IsDistinct, erase-IsDistinct}
use goddd.Conc.SyncMap.{Boxing, Map, walk, len, keys, box, load, store, delete, clear}

some≢none {ℓ} : {A : Type ℓ} {a : A} → some a ≡ none → ⊥
some≢none h = cc

module _ {ℓ} {K V : Type ℓ} where
  pub keys_lem :
      (l : List (K × Option V)) (acc : List K)
      → walk (λ k x acc. (acc ++ (k ∷ []), true)) l acc ≡ acc ++ map (λ e. e.0) l
  unfolding walk
  keys_lem [] acc = sym (append-nil acc)
  keys_lem ((k, x) ∷ l) acc = keys_lem l (acc ++ (k ∷ [])) ∙ append_assoc acc (k ∷ []) _

  pub len_lem :
      (l : List (K × Option V)) (n : ℕ) → walk (λ k x count. (count + 1, true)) l n ≡ n + length l
  unfolding walk
  len_lem [] n = omega arith
  len_lem ((k, x) ∷ l) n = omega (arith, len_lem l (n + 1))

  length-map_key : (l : List (K × Option V)) → length (map (λ e. e.0) l) ≡ length l
  length-map_key [] = refl
  length-map_key (e ∷ l) = ap suc (length-map_key l)

  -- A map that the operations built holds no key twice.
  abbrev pub IsMap : Discrete K → Map K V → Type ℓ
  IsMap dec m = IsDistinct dec m.entries

module _ {ℓ} {K V : Type ℓ} (dec : Discrete K) where
  mem_of_lookup :
      (k : K) (l : List (K × Option V)) → lookup dec k l ≢ none → Mem k (map (λ e. e.0) l)
  unfolding lookup
  mem_of_lookup k [] h = absurd (h refl)
  mem_of_lookup k ((j, x) ∷ l) h = elim (dec j k) [
    | yes p ↦ rw (← p) mem-cons_self
    | no p ↦ mem-cons_of_mem j (mem_of_lookup k l (λ e. h (rw (if_neg _ p) e)))
  ]

  not-mem_of_lookup :
      (k : K) (l : List (K × Option V)) → lookup dec k l ≡ none → ¬ Mem k (map (λ e. e.0) l)
  unfolding lookup
  not-mem_of_lookup k [] absent listed = not-mem-nil listed
  not-mem_of_lookup k ((j, x) ∷ l) absent listed = elim (dec j k) [
    | yes found ↦ some≢none (rw (if_pos _ found) at absent)
    | no other ↦
        Or.elim ⊥_prop (mem-cons.0 listed) (λ same. other (sym same))
          (not-mem_of_lookup k l (rw (if_neg _ other) at absent))
  ]

  Nodup-keys : (l : List (K × Option V)) → IsDistinct dec l → Nodup (map (λ e. e.0) l)
  Nodup-keys [] d = Nodup-nil
  Nodup-keys ((k, x) ∷ l) d = Nodup-cons.1 (not-mem_of_lookup k l d.0, Nodup-keys l d.1)

  -- Storing, deleting and `LoadOrStore` keep the keys distinct.
  pub store-IsMap :
      (b : Boxing V) (k : K) (v : V) (m : Map K V) → IsMap dec m → IsMap dec (store dec b k v m)
  unfolding store
  store-IsMap b k v m d = insert-IsDistinct dec k (box b v) m.entries d

  pub delete-IsMap :
      (b : Boxing V) (k : K) (m : Map K V) → IsMap dec m → IsMap dec (delete dec b k m)
  unfolding delete
  delete-IsMap b k m d = erase-IsDistinct dec k m.entries d

  load-true_iff :
      (b : Boxing V) (k : K) (m : Map K V)
      → ((load dec b k m).1 ≡ true) ↔ Mem k (map (λ e. e.0) m.entries)
  unfolding load
  load-true_iff b k m = elim (Option-cases (lookup dec k m.entries)) [
    | inl e ↦ ((λ h. absurd (ground arith)), λ h. absurd (not-mem_of_lookup k m.entries e h))
    | inr (x, e) ↦ ((λ h. mem_of_lookup k m.entries (λ n. ground arith)), λ h. rw e)
  ]

  -- In a map that holds no key twice, `Keys` lists each key once, a key is listed exactly when
  -- `Load` finds it, and `Len` is the number of keys.
  pub keys-len :
      (b : Boxing V) (m : Map K V)
      → IsMap dec m
      → Nodup (keys m)
        × ((k : K) → ((load dec b k m).1 ≡ true) ↔ Mem k (keys m))
        × (len m ≡ length (keys m))
  unfolding keys len load
  keys-len b m d = (
    rw (keys_lem m.entries []) (Nodup-keys m.entries d),
    (λ k. rw (keys_lem m.entries []) (load-true_iff b k m)),
    rw (keys_lem m.entries [], len_lem m.entries 0) (omega (arith, length-map_key m.entries)),
  )

  walk-erase-IsDistinct :
      (l s : List (K × Option V))
      → IsDistinct dec s
      → IsDistinct dec (walk (λ k x entries. (erase dec k entries, true)) l s)
  unfolding walk
  walk-erase-IsDistinct [] s d = d
  walk-erase-IsDistinct ((k, x) ∷ l) s d =
      walk-erase-IsDistinct l (erase dec k s) (erase-IsDistinct dec k s d)

  pub clear-IsMap : (m : Map K V) → IsMap dec m → IsMap dec (clear dec m)
  unfolding clear
  clear-IsMap m d = walk-erase-IsDistinct m.entries m.entries d
