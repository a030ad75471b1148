-- ===== src/Conc/TtlMap/Race.antt =====
-- The cleaner beside a client: each operation of a `sync.Map` is one step, and the callback of the
-- cleaner and a call of `Store` are two steps each, with others in between.
use goddd.Common.{◌≡◌, refl, ap, true, false, none, some, arith}
use goddd.Common.Int.{ℤ, ◌+ℤ◌}
use goddd.Conc.SyncMap
use goddd.Conc.SyncMap.{Boxing}
use goddd.Conc.SyncMap.View.{view-store_self, view-delete_self}
use goddd.Conc.TtlMap.{TtlMap, after, time_boxing, store}
use goddd.Conc.TtlMap.Live.{exp_at, value_at, live, live_of, live-store}

-- What the cleaner has in hand: nothing; a key found over, of which it has deleted nothing yet; or
-- a key whose value it has deleted.
pub data CleanerAt (K : Type 0) : Type 0 where
  idle : CleanerAt K
  found_over : K → CleanerAt K
  value_deleted : K → CleanerAt K

-- What a client has in hand: nothing, or a `Store` that has written the value and not the time.
pub data ClientAt (K : Type 0) : Type 0 where
  idle : ClientAt K
  value_stored : K → ℤ → ClientAt K

pub record Machine (K V : Type 0) : Type 0 where
  pub map : TtlMap K V
  pub cleaner_at : CleanerAt K
  pub client_at : ClientAt K

module _ {K V : Type 0} (dec : Discrete K) (b : Boxing V) where
  abbrev put_value : K → V → TtlMap K V → TtlMap K V
  put_value k v m = record m { values = SyncMap.store dec b k v m.values }

  abbrev put_time : K → ℤ → TtlMap K V → TtlMap K V
  put_time k t m = record m { exp = SyncMap.store dec time_boxing k t m.exp }

  abbrev drop_value : K → TtlMap K V → TtlMap K V
  drop_value k m = record m { values = SyncMap.delete dec b k m.values }

  abbrev drop_time : K → TtlMap K V → TtlMap K V
  drop_time k m = record m { exp = SyncMap.delete dec time_boxing k m.exp }

  -- The steps at a time `now`.
  pub data Step (now : ℤ) (s u : Machine K V) : Type 0 where
    cleaner_finds :
        (k : K) (e : ℤ)
        → s.cleaner_at ≡ CleanerAt.idle
        → exp_at dec b s.map k ≡ some e
        → after now e ≡ true
        → u ≡ record s { cleaner_at = found_over k }
        → Step now s u
    cleaner_deletes_value :
        (k : K)
        → s.cleaner_at ≡ found_over k
        → u ≡ record s { map = drop_value k s.map; cleaner_at = value_deleted k }
        → Step now s u
    cleaner_deletes_time :
        (k : K)
        → s.cleaner_at ≡ value_deleted k
        → u ≡ record s { map = drop_time k s.map; cleaner_at = CleanerAt.idle }
        → Step now s u
    client_stores_value :
        (k : K) (v : V) (ttl : ℤ)
        → s.client_at ≡ ClientAt.idle
        → u ≡ record s { map = put_value k v s.map; client_at = value_stored k ttl }
        → Step now s u
    client_stores_time :
        (k : K) (ttl : ℤ)
        → s.client_at ≡ value_stored k ttl
        → u ≡ record s { map = put_time k (now +ℤ ttl) s.map; client_at = ClientAt.idle }
        → Step now s u

  pub data Reach (now : ℤ) (s : Machine K V) : Machine K V → Type 0 where
    here : Reach now s s
    next : {t u : Machine K V} → Reach now s t → Step now t u → Reach now s u

  abbrev pub at_rest : TtlMap K V → Machine K V
  at_rest m = record { map = m; cleaner_at = CleanerAt.idle; client_at = ClientAt.idle }

  -- The map after the cleaner has found the key over, the client has stored, and the cleaner has
  -- deleted.
  abbrev lost : ℤ → K → V → ℤ → TtlMap K V → TtlMap K V
  lost now k v ttl m = drop_time k (drop_value k (put_time k (now +ℤ ttl) (put_value k v m)))

  -- A store can be lost: wherever a key's time is over, steps of the cleaner and one whole `Store`
  -- of that key lead to a state at rest in which the key has no value, though after the same
  -- `Store` alone the value can be read until its own time is over.
  pub store_lost :
      (now ttl e : ℤ) (k : K) (v : V) (m : TtlMap K V)
      → exp_at dec b m k ≡ some e
      → after now e ≡ true
      → after now (now +ℤ ttl) ≡ false
      → (m' : TtlMap K V) × Reach now (at_rest m) (at_rest m')
        × (live dec b now m' k ≡ none)
        × (live dec b now (store dec b k v ttl now m) k ≡ some v)
  unfolding live live_of
  store_lost now ttl e k v m found over fresh = (
    lost now k v ttl m,
    next
        (next
          (next
            (next (next here (cleaner_finds k e refl found over refl))
              (client_stores_value k v ttl refl refl))
            (client_stores_time k ttl refl refl))
          (cleaner_deletes_value k refl refl))
        (cleaner_deletes_time k refl refl),
    ap (λ o. live_of dec b now o (value_at dec b (lost now k v ttl m) k))
        (view-delete_self dec time_boxing k (put_time k (now +ℤ ttl) (put_value k v m)).exp),
    ground (arith, live-store dec b k k v ttl now now m),
  )

  -- A value can be left with no time: wherever a key's time is over, steps of the cleaner and one
  -- whole `Store` of that key lead to a state at rest in which the key has the stored value and no
  -- expiry time.
  pub value_orphaned :
      (now ttl e : ℤ) (k : K) (v : V) (m : TtlMap K V)
      → exp_at dec b m k ≡ some e
      → after now e ≡ true
      → (m' : TtlMap K V) × Reach now (at_rest m) (at_rest m')
        × (value_at dec b m' k ≡ some v)
        × (exp_at dec b m' k ≡ none)
  value_orphaned now ttl e k v m found over = (
    drop_time k (put_time k (now +ℤ ttl) (put_value k v (drop_value k m))),
    next
        (next
          (next
            (next (next here (cleaner_finds k e refl found over refl))
              (cleaner_deletes_value k refl refl))
            (client_stores_value k v ttl refl refl))
          (client_stores_time k ttl refl refl))
        (cleaner_deletes_time k refl refl),
    view-store_self dec b k v (drop_value k m).values,
    view-delete_self dec time_boxing k
        (put_time k (now +ℤ ttl) (put_value k v (drop_value k m))).exp,
  )
