-- ===== src/Conc/TtlMap/Live.antt =====
-- What can be read of a map with expiry: an entry until its time is over, and then nothing.
use goddd.Common.{
  ◌≡◌, refl, ◌∙◌, true, false, Bool-cases, Option-cases, inl, inr, ◌⊎◌, List, [], ◌∷◌, Option, none,
  some, arith, if◌then◌else◌, ite,
}
use goddd.Common.Int.{ℤ, ◌+ℤ◌, ◌≤ℤ◌}
use goddd.Common.Assoc.{lookup, IsDistinct}
use mathlib.Core.Option
use goddd.Conc.SyncMap
use goddd.Conc.SyncMap.{Boxing, Map}
use goddd.Conc.SyncMap.View.{view, answer, view-store, view-delete, load-view, load_or_store-view}
use goddd.Conc.SyncMap.Size.{delete-IsMap}
use goddd.Conc.TtlMap.{
  TtlMap, after, time_boxing, store, load, load_or_store, delete, tick, clean_key, after_mono,
}

module _ {K V : Type 0} (dec : Discrete K) (b : Boxing V) where
  abbrev pub exp_at : TtlMap K V → K → Option ℤ
  exp_at m k = view dec time_boxing m.exp k

  abbrev pub value_at : TtlMap K V → K → Option V
  value_at m k = view dec b m.values k

  -- The value that a key has at a time, if it has one.
  unfoldable pub live_of : ℤ → Option ℤ → Option V → Option V
  live_of now none o = none
  live_of now (some e) o = if after now e then none else o

  unfoldable pub live : ℤ → TtlMap K V → K → Option V
  live now m k = live_of now (exp_at m k) (value_at m k)

  -- A stored value is there until its time is over, and the other keys are not changed.
  pub live-store :
      (k j : K) (v : V) (ttl now later : ℤ) (m : TtlMap K V)
      → live later (store dec b k v ttl now m) j
        ≡ ite (dec k j) (if after later (now +ℤ ttl) then none else some v) (live later m j)
  unfolding live live_of store
  live-store k j v ttl now later m =
      ground
        (arith, view-store dec time_boxing k (now +ℤ ttl) m.exp j, view-store dec b k v m.values j)

  pub live-delete :
      (k j : K) (later : ℤ) (m : TtlMap K V)
      → live later (delete dec b k m) j ≡ ite (dec k j) none (live later m j)
  unfolding live live_of delete
  live-delete k j later m =
      ground (arith, view-delete dec time_boxing k m.exp j, view-delete dec b k m.values j)

  load-answer :
      (k : K) (now : ℤ) (m : TtlMap K V) → (load dec b k now m).1 ≡ answer dec b (live now m k)
  unfolding load live live_of
  load-answer k now m =
      ground (arith, load-view dec time_boxing k m.exp, load-view dec b k m.values)

  -- The map after a `Load` of `k` differs from the one before only if `k` was over.
  pub load_state :
      (k : K) (now : ℤ) (m : TtlMap K V)
      → ((load dec b k now m).0 ≡ m)
        ⊎ (((load dec b k now m).0 ≡ delete dec b k m)
            × (live now m k ≡ none)
            × ((e : ℤ) × (exp_at m k ≡ some e) × (after now e ≡ true)))
  unfolding load live live_of
  load_state k now m = elim (Option-cases (exp_at m k)) [
    | inl e ↦ inl (ground (arith, load-view dec time_boxing k m.exp))
    | inr (t, e) ↦ elim (Bool-cases (after now t)) [
      | inl over ↦
          inr (ground (arith, load-view dec time_boxing k m.exp), ground arith, (t, e, over))
      | inr there ↦ inl (ground (arith, load-view dec time_boxing k m.exp))
    ]
  ]

  live_over :
      (k : K) (later : ℤ) (m : TtlMap K V) {e : ℤ}
      → exp_at m k ≡ some e
      → after later e ≡ true
      → live later m k ≡ none
  unfolding live live_of
  live_over k later m p q = ground arith

  load_keeps :
      (k j : K) (now later : ℤ) (m : TtlMap K V)
      → now ≤ℤ later
      → live later (load dec b k now m).0 j ≡ live later m j
  load_keeps k j now later m le = elim (load_state k now m) [
    | inl same ↦ rw same
    | inr (gone, _, (e, p, over)) ↦ rw gone (
        ground
          (arith, live-delete k j later m, live_over k later m p (after_mono now e later over le)))
  ]

  -- `Load` returns the value that the key has at the time of the call, or the zero value and false
  -- if it has none, and leaves what any key has at that time or later as it was.
  pub load-live :
      (k j : K) (now later : ℤ) (m : TtlMap K V)
      → now ≤ℤ later
      → ((load dec b k now m).1 ≡ answer dec b (live now m k))
        × (live later (load dec b k now m).0 j ≡ live later m j)
  load-live k j now later m le = (load-answer k now m, load_keeps k j now later m le)

  -- `LoadOrStore` gives the key its new time first, and then keeps a value that is still held.
  pub load_or_store_lem :
      (k : K) (v : V) (ttl now : ℤ) (m : TtlMap K V)
      → ((load_or_store dec b k v ttl now m).1
          ≡ elim (value_at m k) [ none ↦ (v, false) | some w ↦ (w, true) ])
        × ((later : ℤ) (j : K)
            → live later (load_or_store dec b k v ttl now m).0 j
              ≡ ite
                  (dec k j)
                  (if after later (now +ℤ ttl) then none else some (Option.get_or (value_at m k) v))
                  (live later m j))
  unfolding load_or_store live live_of
  load_or_store_lem k v ttl now m = elim (Option-cases (value_at m k)) [
    | inl e ↦ (
      ground (arith, load_or_store-view dec b k v m.values),
      λ later j. ground (
        arith,
        load_or_store-view dec b k v m.values,
        view-store dec time_boxing k (now +ℤ ttl) m.exp j,
        view-store dec b k v m.values j,
      ),
    )
    | inr (w, e) ↦ (
      ground (arith, load_or_store-view dec b k v m.values),
      λ later j. ground (
        arith,
        load_or_store-view dec b k v m.values,
        view-store dec time_boxing k (now +ℤ ttl) m.exp j,
      ),
    )
  ]

  -- `LoadOrStore` of a key that has a value keeps the value, over or not.
  pub value_at-load_or_store :
      (k : K) (v w : V) (ttl now : ℤ) (m : TtlMap K V)
      → value_at m k ≡ some w
      → value_at (load_or_store dec b k v ttl now m).0 k ≡ some w
  unfolding load_or_store
  value_at-load_or_store k v w ttl now m h =
      ground (arith, h, load_or_store-view dec b k v m.values)

  -- What one round of the cleaner leaves of an entry, by the time that it met.
  abbrev swept {ℓ} : {A : Type ℓ} → ℤ → Option (Option ℤ) → Option A → Option A
  swept now none o = o
  swept now (some x) o = if after now (SyncMap.unbox time_boxing x) then none else o

  abbrev sweep : ℤ → List (K × Option ℤ) → TtlMap K V → TtlMap K V
  sweep now = SyncMap.walk (λ k x. clean_key dec b now k (SyncMap.unbox time_boxing x))

  sweep_lem :
      (now : ℤ) (j : K) (l : List (K × Option ℤ)) (m : TtlMap K V)
      → IsDistinct dec l
      → (exp_at (sweep now l m) j ≡ swept now (lookup dec j l) (exp_at m j))
        × (value_at (sweep now l m) j ≡ swept now (lookup dec j l) (value_at m j))
  unfolding SyncMap.walk lookup clean_key delete
  sweep_lem now j [] m d = (refl, refl)
  sweep_lem now j ((k, x) ∷ l) m d =
      let (ih_exp, ih_value) =
        sweep_lem now j l (clean_key dec b now k (SyncMap.unbox time_boxing x) m).0 d.1 in
      (
        ground (arith, ih_exp, view-delete dec time_boxing k m.exp j),
        ground (arith, ih_value, view-delete dec b k m.values j),
      )

  unfoldable pub gone {ℓ} : {A : Type ℓ} → ℤ → Option ℤ → Option A → Option A
  gone now none o = o
  gone now (some e) o = if after now e then none else o

  swept-gone {ℓ} :
      {A : Type ℓ} (now : ℤ) (j : K) (m : TtlMap K V) (o : Option A)
      → swept now (lookup dec j m.exp.entries) o ≡ gone now (exp_at m j) o
  unfolding view gone
  swept-gone now j m o = elim (Option-cases (lookup dec j m.exp.entries)) [
    | inl e ↦ rw e
    | inr (x, e) ↦ rw e
  ]

  -- A round of the cleaner deletes the keys whose time is over, from both maps, and no others.
  pub tick_lem :
      (now : ℤ) (m : TtlMap K V) (j : K)
      → IsDistinct dec m.exp.entries
      → (exp_at (tick dec b now m) j ≡ gone now (exp_at m j) (exp_at m j))
        × (value_at (tick dec b now m) j ≡ gone now (exp_at m j) (value_at m j))
  unfolding tick SyncMap.range
  tick_lem now m j d =
      let (in_exp, in_values) = sweep_lem now j m.exp.entries m d in
      (in_exp ∙ swept-gone now j m (exp_at m j), in_values ∙ swept-gone now j m (value_at m j))

  -- A round of the cleaner changes nothing that is read then or later.
  pub tick_keeps :
      (j : K) (now later : ℤ) (m : TtlMap K V)
      → IsDistinct dec m.exp.entries
      → now ≤ℤ later
      → live later (tick dec b now m) j ≡ live later m j
  unfolding live live_of gone
  tick_keeps j now later m d le = elim (Option-cases (exp_at m j)) [
    | inl e ↦ ground (arith, (tick_lem now m j d).0)
    | inr (t, e) ↦ ground (
      arith,
      (tick_lem now m j d).0,
      (tick_lem now m j d).1,
      λ (h : after now t ≡ true). after_mono now t later h le,
    )
  ]

  delete-IsDistinct :
      (k : K) (m : TtlMap K V)
      → IsDistinct dec m.exp.entries × IsDistinct dec m.values.entries
      → IsDistinct dec (delete dec b k m).exp.entries
        × IsDistinct dec (delete dec b k m).values.entries
  unfolding delete
  delete-IsDistinct k m d =
      (delete-IsMap dec time_boxing k m.exp d.0, delete-IsMap dec b k m.values d.1)

  sweep-IsDistinct :
      (now : ℤ) (l : List (K × Option ℤ)) (m : TtlMap K V)
      → IsDistinct dec m.exp.entries × IsDistinct dec m.values.entries
      → IsDistinct dec (sweep now l m).exp.entries × IsDistinct dec (sweep now l m).values.entries
  unfolding SyncMap.walk clean_key
  sweep-IsDistinct now [] m d = d
  sweep-IsDistinct now ((k, x) ∷ l) m d =
      elim (Bool-cases (after now (SyncMap.unbox time_boxing x))) [
        | inl e ↦ rw e (sweep-IsDistinct now l (delete dec b k m) (delete-IsDistinct k m d))
        | inr e ↦ rw e (sweep-IsDistinct now l m d)
      ]

  pub tick-IsDistinct :
      (now : ℤ) (m : TtlMap K V)
      → IsDistinct dec m.exp.entries × IsDistinct dec m.values.entries
      → IsDistinct dec (tick dec b now m).exp.entries
        × IsDistinct dec (tick dec b now m).values.entries
  unfolding tick SyncMap.range
  tick-IsDistinct now m d = sweep-IsDistinct now m.exp.entries m d
