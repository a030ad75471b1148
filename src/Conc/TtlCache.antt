-- ===== src/Conc/TtlCache.antt =====
-- pkg/conc/ttl_cache.go: `TTLCache`, the map with expiry under one duration for all keys.
-- A value of type `any` is a value of `S`. What `reflect` and `encoding/json` do with it and with the
-- destination is the record `Conversion`.
pub mod Laws
use goddd.Common.{◌≡◌, Bool, true, false, not, Option, none, some, if◌then◌else◌}
use goddd.Common.Int.{ℤ}
use goddd.Common.Text.{Bytes, bytes_discrete}
use goddd.Conc.SyncMap.{Boxing}
use goddd.Conc.TtlMap
use goddd.Conc.TtlMap.{TtlMap}

pub record Conversion (S D : Type 0) : Type 0 where
  pub is_pointer : Bool
  pub same_type : S → Option D
  pub convert : S → Option D
  pub marshal : S → Option Bytes
  pub unmarshal : Bytes → Option D

-- `assignByReflect`: the value if the types are equal, converted if they convert, and otherwise
-- through JSON.
unfoldable pub assign_by_reflect : {S D : Type 0} → Conversion S D → S → Option D
assign_by_reflect r src = if not r.is_pointer then none else elim (r.same_type src) [
  | some d ↦ some d
  | none ↦ elim (r.convert src) [
    | some d ↦ some d
    | none ↦ elim (r.marshal src) [ none ↦ none | some text ↦ r.unmarshal text ]
  ]
]

pub record TtlCache (S : Type 0) : Type 0 where
  pub map : TtlMap Bytes S
  pub ttl : ℤ

module _ {S : Type 0} where
  pub new_ttl_cache : ℤ → TtlCache S
  new_ttl_cache ttl = record { map = TtlMap.new_ttl_map; ttl = ttl }

module _ {S : Type 0} (b : Boxing S) where
  pub set : Bytes → S → ℤ → TtlCache S → TtlCache S
  set key value now c = record c { map = TtlMap.store bytes_discrete b key value c.ttl now c.map }

  pub del : Bytes → TtlCache S → TtlCache S
  del key c = record c { map = TtlMap.delete bytes_discrete b key c.map }

  unfoldable pub get :
      {D : Type 0} → Conversion S D → Bytes → ℤ → TtlCache S → TtlCache S × Option D
  unfolding assign_by_reflect
  get r key now c =
      let (m, (value, ok)) = TtlMap.load bytes_discrete b key now c.map in
      (record c { map = m }, if not ok then none else assign_by_reflect r value)

  -- `SetNX` looks with `Load`, which may delete a key that is over.
  pub set_nx : Bytes → S → ℤ → TtlCache S → TtlCache S
  set_nx key value now c =
      let (m, (v, exists)) = TtlMap.load bytes_discrete b key now c.map in
      if not exists
      then record c { map = TtlMap.store bytes_discrete b key value c.ttl now m }
      else record c { map = m }
