-- ===== src/Conc/SyncMap/View.antt =====
-- The generic map as a partial function from keys to values, nil values included.
use mathlib.Core.Option
use mathlib.Core.Path.{fun_ext}
use goddd.Common.{
  ◌≡◌, refl, sym, ap, Bool, true, false, Bool-cases, inl, inr, List, [], ◌∷◌, Option, none, some,
  arith, ite,
}
use goddd.Common.Assoc.{lookup, insert, erase, lookup-insert, lookup-erase}
use goddd.Conc.SyncMap.{
  Boxing, Map, box, unbox, found, store, load, load_or_store, delete, clear, walk,
}

module _ {ℓ} {K V : Type ℓ} (dec : Discrete K) (b : Boxing V) where
  -- What a map promises: which keys it has, and their values.
  unfoldable pub view : Map K V → K → Option V
  view m k = Option.map (unbox b) (lookup dec k m.entries)

  -- One key of a function changed.
  abbrev pub changed : K → Option V → (K → Option V) → K → Option V
  changed k o f j = ite (dec k j) o (f j)

  -- A lookup result as the pair of the source.
  abbrev pub answer : Option V → V × Bool
  answer none = (b.zero_value, false)
  answer (some v) = (v, true)

  -- Boxing loses nothing: a nil value comes back as the zero value that it is.
  pub unbox-box : (v : V) → unbox b (box b v) ≡ v
  unbox-box v = elim (Bool-cases (b.is_nil v)) [
    | inl e ↦ rw e (sym (b.nil_is_zero v e))
    | inr e ↦ rw e
  ]

  pub view-insert :
      (k : K) (v : V) (m : Map K V)
      → view (record { entries = insert dec k (box b v) m.entries }) ≡ changed k (some v) (view m)
  unfolding view
  view-insert k v m =
      fun_ext λ j. ground (arith, lookup-insert dec k j (box b v) m.entries, unbox-box v)

  pub view-erase :
      (k : K) (m : Map K V)
      → view (record { entries = erase dec k m.entries }) ≡ changed k none (view m)
  unfolding view
  view-erase k m = fun_ext λ j. ground (arith, lookup-erase dec k j m.entries)

  -- Clearing walks the entries and deletes each key that it meets.
  pub lookup-walk-erase :
      (j : K) (l s : List (K × Option V))
      → lookup dec j (walk (λ k x entries. (erase dec k entries, true)) l s)
        ≡ elim (lookup dec j l) [ none ↦ lookup dec j s | some _ ↦ none ]
  unfolding walk lookup
  lookup-walk-erase j [] s = refl
  lookup-walk-erase j ((k, x) ∷ l) s =
      ground (arith, lookup-walk-erase j l (erase dec k s), lookup-erase dec k j s)

  pub view-clear : (m : Map K V) → view (clear dec m) ≡ λ j. none
  unfolding view clear
  view-clear m = fun_ext λ j. ground (arith, lookup-walk-erase j m.entries m.entries)

  pub view_of_none : (k : K) (m : Map K V) → lookup dec k m.entries ≡ none → view m k ≡ none
  unfolding view
  view_of_none k m e = rw e

  pub view_of_some :
      (k : K) (m : Map K V) (x : Option V)
      → lookup dec k m.entries ≡ some x
      → view m k ≡ some (unbox b x)
  unfolding view
  view_of_some k m x e = rw e

  pub found-view : (k : K) (m : Map K V) → found b (lookup dec k m.entries) ≡ answer (view m k)
  unfolding view
  found-view k m = ground arith

  -- The same calls one key at a time, for the maps that are built of this one.
  pub view-store :
      (k : K) (v : V) (m : Map K V) (j : K)
      → view (store dec b k v m) j ≡ ite (dec k j) (some v) (view m j)
  unfolding store
  view-store k v m j = ap (λ f. f j) (view-insert k v m)

  pub view-delete :
      (k : K) (m : Map K V) (j : K) → view (delete dec b k m) j ≡ ite (dec k j) none (view m j)
  unfolding delete
  view-delete k m j = ap (λ f. f j) (view-erase k m)

  pub view-clear_at : (m : Map K V) (j : K) → view (clear dec m) j ≡ none
  view-clear_at m j = ap (λ f. f j) (view-clear m)

  pub load-view : (k : K) (m : Map K V) → load dec b k m ≡ answer (view m k)
  unfolding load
  load-view k m = found-view k m

  pub load_or_store-view :
      (k : K) (v : V) (m : Map K V)
      → load_or_store dec b k v m
        ≡ elim (view m k) [ none ↦ (store dec b k v m, (v, false)) | some w ↦ (m, (w, true)) ]
  unfolding load_or_store view store
  load_or_store-view k v m = ground (arith, unbox-box v)

  pub view-store_self : (k : K) (v : V) (m : Map K V) → view (store dec b k v m) k ≡ some v
  view-store_self k v m = ground (arith, view-store k v m k)

  pub view-delete_self : (k : K) (m : Map K V) → view (delete dec b k m) k ≡ none
  view-delete_self k m = ground (arith, view-delete k m k)
