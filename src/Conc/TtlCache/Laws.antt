-- ===== src/Conc/TtlCache/Laws.antt =====
-- `TTLCache` keeps what the interface `Cacher` promises.
use goddd.Common.{
  ◌≡◌, ◌≢◌, ◌⊎◌, sym, ◌∙◌, false, Bool-cases, Option-cases, inl, inr, none, some, arith,
}
use goddd.Common.Int.{ℤ, ◌+ℤ◌, ◌≤ℤ◌}
use goddd.Common.Text.{Bytes, bytes_discrete}
use goddd.Conc.SyncMap.{Boxing}
use goddd.Conc.TtlMap
use goddd.Conc.TtlMap.{TtlMap, after}
use goddd.Conc.TtlMap.Live.{live, live-store, live-delete, load-live}
use goddd.Conc.TtlCache.{TtlCache, Conversion, assign_by_reflect, set, set_nx, get, del}
use goddd.Conc.Cacher.{Cacher}

module _ {S : Type 0} (b : Boxing S) where
  pub get-held :
      {D : Type 0} (r : Conversion S D) (k : Bytes) (now : ℤ) (c : TtlCache S)
      → (get b r k now c).1
        ≡ elim (live bytes_discrete b now c.map k) [ none ↦ none | some s ↦ assign_by_reflect r s ]
  unfolding get
  get-held r k now c = elim (Option-cases (live bytes_discrete b now c.map k)) [
    | inl e ↦ ground (arith, e, (load-live bytes_discrete b k k now now c.map (omega arith)).0)
    | inr (s, e) ↦ ground (arith, e, (load-live bytes_discrete b k k now now c.map (omega arith)).0)
  ]

  pub get_keeps_held :
      {D : Type 0} (r : Conversion S D) (k j : Bytes) (s : S) (now later : ℤ) (c : TtlCache S)
      → now ≤ℤ later
      → live bytes_discrete b later (get b r k now c).0.map j ≡ some s
      → live bytes_discrete b later c.map j ≡ some s
  unfolding get
  get_keeps_held r k j s now later c le h =
      sym (load-live bytes_discrete b k j now later c.map le).1 ∙ h

module _ {S : Type 0} (b : Boxing S) where
  store_held :
      (k j : Bytes) (s t : S) (ttl now later : ℤ) (m : TtlMap Bytes S)
      → live bytes_discrete b later (TtlMap.store bytes_discrete b k s ttl now m) j ≡ some t
      → ((k ≡ j) × (t ≡ s)) ⊎ ((k ≢ j) × (live bytes_discrete b later m j ≡ some t))
  store_held k j s t ttl now later m h = elim (bytes_discrete k j) [
    | yes p ↦ inl (p, ground (arith, h, p, live-store bytes_discrete b k j s ttl now later m))
    | no p ↦ inr (p, ground (arith, h, p, live-store bytes_discrete b k j s ttl now later m))
  ]

  pub set_held :
      (k j : Bytes) (s t : S) (now later : ℤ) (c : TtlCache S)
      → live bytes_discrete b later (set b k s now c).map j ≡ some t
      → ((k ≡ j) × (t ≡ s)) ⊎ ((k ≢ j) × (live bytes_discrete b later c.map j ≡ some t))
  unfolding set
  set_held k j s t now later c h = store_held k j s t c.ttl now later c.map h

  pub set_nx_held :
      (k j : Bytes) (s t : S) (now later : ℤ) (c : TtlCache S)
      → now ≤ℤ later
      → live bytes_discrete b later (set_nx b k s now c).map j ≡ some t
      → ((k ≡ j) × (t ≡ s)) ⊎ (live bytes_discrete b later c.map j ≡ some t)
  unfolding set_nx
  set_nx_held k j s t now later c le h =
      let kept = (load-live bytes_discrete b k j now later c.map le).1 in
      elim (Bool-cases (TtlMap.load bytes_discrete b k now c.map).1.1) [
        | inl e ↦ inr (sym kept ∙ (rw e at h))
        | inr e ↦ elim (store_held k j s t c.ttl now later _ (rw e at h)) [
          | inl here ↦ inl here
          | inr (_, there) ↦ inr (sym kept ∙ there)
        ]
      ]

  -- `SetNX` of a key that is held changes nothing that is read then or later, the time of the key
  -- included; of a key that is not held, it is `Set`.
  pub set_nx_lem :
      (k j : Bytes) (s : S) (now later : ℤ) (c : TtlCache S)
      → now ≤ℤ later
      → live bytes_discrete b later (set_nx b k s now c).map j
        ≡ elim (live bytes_discrete b now c.map k) [
          | some _ ↦ live bytes_discrete b later c.map j
          | none ↦ live bytes_discrete b later (set b k s now c).map j
        ]
  unfolding set_nx set
  set_nx_lem k j s now later c le =
      let (loaded, kept) = load-live bytes_discrete b k j now later c.map le in
      elim (Option-cases (live bytes_discrete b now c.map k)) [
        | inr (v, e) ↦ ground (arith, e, loaded, kept)
        | inl e ↦ ground (
          arith,
          e,
          loaded,
          kept,
          live-store bytes_discrete b k j s c.ttl now later c.map,
          live-store bytes_discrete b k j s c.ttl now later
              (TtlMap.load bytes_discrete b k now c.map).0,
        )
      ]

  -- What `Set` has stored is what `Get` converts, until the duration of the cache is over.
  pub get-set :
      {D : Type 0} (r : Conversion S D) (k : Bytes) (s : S) (now later : ℤ) (c : TtlCache S)
      → after later (now +ℤ c.ttl) ≡ false
      → (get b r k later (set b k s now c)).1 ≡ assign_by_reflect r s
  unfolding set
  get-set r k s now later c h =
      let there : live bytes_discrete b later (set b k s now c).map k ≡ some s =
        ground (arith, h, live-store bytes_discrete b k k s c.ttl now later c.map) in
      get-held b r k later (set b k s now c) ∙ rw there

  pub del_held :
      (k j : Bytes) (t : S) (later : ℤ) (c : TtlCache S)
      → live bytes_discrete b later (del b k c).map j ≡ some t
      → (k ≢ j) × (live bytes_discrete b later c.map j ≡ some t)
  unfolding del
  del_held k j t later c h = elim (bytes_discrete k j) [
    | yes p ↦ absurd (ground (arith, h, p, live-delete bytes_discrete b k j later c.map))
    | no p ↦ (p, ground (arith, h, p, live-delete bytes_discrete b k j later c.map))
  ]

-- The interface filled.
abbrev pub ttl_cacher : {S D : Type 0} → Boxing S → Conversion S D → Cacher S D
ttl_cacher {S} b r = record {
  Cache = TtlCache S;
  cached = λ later c k. live bytes_discrete b later c.map k;
  converted = assign_by_reflect r;
  get = get b r;
  set = set b;
  set_nx = set_nx b;
  del = del b;
  get_cached = λ k now c. get-held b r k now c;
  get_keeps = λ k j s now later c le h. get_keeps_held b r k j s now later c le h;
  set_cached = λ k j s t now later c h. set_held b k j s t now later c h;
  set_nx_cached = λ k j s t now later c le h. set_nx_held b k j s t now later c le h;
  del_cached = λ k j t later c h. del_held b k j t later c h;
}
