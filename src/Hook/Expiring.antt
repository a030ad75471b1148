-- ===== src/Hook/Expiring.antt =====
-- pkg/hook/cache.go: `UseTTLCache`, a function whose successful results are remembered for a while, in
-- a map with expiry. The function may change the world `S`.
mod Examples
use goddd.Common.{
  ◌≡◌, refl, sym, ap, ◌∙◌, Bool, true, false, Bool-cases, Option-cases, inl, inr, Option, none,
  some, arith, if◌then◌else◌, ite,
}
use goddd.Common.Int.{ℤ, ◌+ℤ◌}
use goddd.Conc.SyncMap.{Boxing}
use goddd.Conc.SyncMap.View.{answer}
use goddd.Conc.TtlMap.{TtlMap, after, store, load}
use goddd.Conc.TtlMap.Live.{live, live-store, load-live}

module _ {K V E S : Type 0} (dec : Discrete K) (b : Boxing V) (timeline : ℤ)
    (fn : K → S → S × (V × Option E)) where
  pub use_ttl_cache : K → ℤ → TtlMap K V × S → (TtlMap K V × S) × (V × Bool × Option E)
  use_ttl_cache key now (m, s) =
      let (m', (v, ok)) = load dec b key now m in
      if ok
      then ((m', s), (v, true, none))
      else (let (s', (w, err)) = fn key s in
          elim err [
            | none ↦ ((store dec b key w timeline now m', s'), (w, false, none))
            | some e ↦ ((m', s'), (w, false, some e))
          ])

  now_live :
      (key : K) (v : V) (now later : ℤ) (m : TtlMap K V) (s : S) (state' : TtlMap K V × S)
      → use_ttl_cache key now (m, s) ≡ (state', (v, false, none))
      → after later (now +ℤ timeline) ≡ false
      → live dec b later state'.0 key ≡ some v
  unfolding use_ttl_cache
  now_live key v now later m s state' run in_time = ground (
    arith,
    run,
    in_time,
    live-store dec b key key (fn key s).1.0 timeline now later (load dec b key now m).0,
  )

  -- A call that has called the function and got `v` without an error is remembered: until the
  -- duration is over, the next call with this key returns `v` as remembered, without an error and
  -- without calling the function.
  pub use_ttl_cache_kept :
      (key : K) (v : V) (now later : ℤ) (state state' : TtlMap K V × S)
      → use_ttl_cache key now state ≡ (state', (v, false, none))
      → after later (now +ℤ timeline) ≡ false
      → ((use_ttl_cache key later state').1 ≡ (v, true, none))
        × ((use_ttl_cache key later state').0.1 ≡ state'.1)
  unfolding use_ttl_cache
  use_ttl_cache_kept key v now later (m, s) (m', s') run in_time =
      let there = now_live key v now later m s (m', s') run in_time in
      let loaded = (load-live dec b key key later later m' (omega arith)).0 in
      (ground (arith, there, loaded), ground (arith, there, loaded))
