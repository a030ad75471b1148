-- ===== src/Hook/Caching.antt =====
-- pkg/hook/cache.go: `UseCache`, a function with a memory of its successful results. The function
-- that it wraps may change the world `S`.
mod Examples
use goddd.Common.{
  ℕ, ◌≡◌, refl, Bool, true, false, List, [], ◌∷◌, Option, none, some, arith, ite, ap, ◌∙◌,
  Option-cases, inl, inr, ◌⊎◌,
}
use goddd.Common.Assoc.{lookup, insert, lookup-insert}

module _ {K V E S : Type 0} (dec : Discrete K) (fn : K → S → S × (V × Option E)) where
  -- The closure's map, and the value, whether it was remembered, and the error.
  pub use_cache : K → List (K × V) × S → (List (K × V) × S) × (V × Bool × Option E)
  use_cache key (cache, s) = elim (lookup dec key cache) [
    | some v ↦ ((cache, s), (v, true, none))
    | none ↦
        let (s', (v, err)) = fn key s in
        elim err [
          | none ↦ ((insert dec key v cache, s'), (v, false, none))
          | some e ↦ ((cache, s'), (v, false, some e))
        ]
  ]

  -- Calls one after the other, of which the state is kept.
  pub calls : List K → List (K × V) × S → List (K × V) × S
  calls [] state = state
  calls (k ∷ ks) state = calls ks (use_cache k state).0

  -- A call keeps what is remembered.
  remembered :
      (key k : K) (v : V) (state : List (K × V) × S)
      → lookup dec key state.0 ≡ some v
      → lookup dec key (use_cache k state).0.0 ≡ some v
  unfolding use_cache
  remembered key k v (cache, s) h = elim (Option-cases (lookup dec k cache)) [
    | inr (w, e) ↦ rw (e, use_cache) h
    | inl e ↦ elim (Option-cases (fn k s).1.1) [
      | inr (er, f) ↦ rw (e, use_cache) (rw f h)
      | inl f ↦
          rw (e, use_cache)
            (rw f (ground (arith, e, h, lookup-insert dec k key (fn k s).1.0 cache)))
    ]
  ]

  remembered_calls :
      (key : K) (v : V) (ks : List K) (state : List (K × V) × S)
      → lookup dec key state.0 ≡ some v
      → lookup dec key (calls ks state).0 ≡ some v
  unfolding calls
  remembered_calls key v [] state h = h
  remembered_calls key v (k ∷ ks) state h =
      remembered_calls key v ks (use_cache k state).0 (remembered key k v state h)

  answered :
      (key : K) (v : V) (state : List (K × V) × S)
      → lookup dec key state.0 ≡ some v
      → use_cache key state ≡ (state, (v, true, none))
  unfolding use_cache
  answered key v (cache, s) h = rw (h, use_cache) refl

  now_remembered :
      (key : K) (v : V) (hit : Bool) (cache : List (K × V)) (s : S) (state' : List (K × V) × S)
      → use_cache key (cache, s) ≡ (state', (v, hit, none))
      → lookup dec key state'.0 ≡ some v
  unfolding use_cache
  now_remembered key v hit cache s state' run =
      ground (arith, run, lookup-insert dec key key (fn key s).1.0 cache)

  -- Once a call has returned `v` without an error, every later call with the same key returns `v`
  -- from the memory: without an error, and without calling the function, whatever was called between.
  pub use_cache_once :
      (key : K) (v : V) (hit : Bool) (ks : List K) (state state' : List (K × V) × S)
      → use_cache key state ≡ (state', (v, hit, none))
      → use_cache key (calls ks state') ≡ (calls ks state', (v, true, none))
  use_cache_once key v hit ks state state' h =
      answered key v (calls ks state')
        (remembered_calls key v ks state' (now_remembered key v hit state.0 state.1 state' h))
