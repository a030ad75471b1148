-- ===== src/Orm/Map.antt =====
-- pkg/orm/map.go: a map of values of any type, which may be nil, and a struct with such a map beside.
-- A Go map is shared: a method that writes to it returns what the map then holds, nil stays apart.
-- encoding/json is the record `Codec`.
pub mod Merge
mod Examples
use goddd.Common.Assoc.{erase, insert, lookup}
use goddd.Common.Text.{bytes_discrete, Bytes}
use goddd.Common.Int.{pos, ℤ}
use goddd.Common.{
  length, ltb, if◌then◌else◌, Bool, List, Option, [], ◌∷◌, some, none, false, true, ℕ,
}

-- A float is taken by its integral part, which is what `int(v)` leaves of it.
pub data Value : Type 0 where
  int : ℤ → Value
  int64 : ℤ → Value
  float64 : ℤ → Value
  text : Bytes → Value
  bool : Bool → Value
  any_other : Value

abbrev pub Entries : Type 0
Entries = List (Bytes × Value)

-- `none` is the nil map.
abbrev pub Map : Type 0
Map = Option Entries

pub at : Bytes → Entries → Option Value
at k m = lookup bytes_discrete k m

pub put : Bytes → Value → Entries → Entries
put k v m = insert bytes_discrete k v m

-- `maps.Copy`
pub copy : Entries → Entries → Entries
unfolding put
copy m [] = m
copy m ((k, v) ∷ o) = copy (put k v m) o

-- `Get`, where `none` is nil.
pub get : Map → Bytes → Option Value
unfolding at
get none k = none
get (some m) k = at k m

pub text_of : Option Value → Bytes
text_of (some (text s)) = s
text_of _ = []

pub get_string : Map → Bytes → Bytes
unfolding text_of at
get_string none k = []
get_string (some m) k = text_of (at k m)

pub int_of : Option Value → ℤ
int_of (some (int n)) = n
int_of (some (int64 n)) = n
int_of (some (float64 n)) = n
int_of _ = pos 0

pub get_int : Map → Bytes → ℤ
unfolding int_of at
get_int none k = pos 0
get_int (some m) k = int_of (at k m)

pub bool_of : Option Value → Bool
bool_of (some (bool b)) = b
bool_of _ = false

pub get_bool : Map → Bytes → Bool
unfolding bool_of at
get_bool none k = false
get_bool (some m) k = bool_of (at k m)

pub set : Bytes → Value → Map → Map
unfolding put
set k v none = some (put k v [])
set k v (some m) = some (put k v m)

pub delete : Bytes → Map → Map
delete k none = none
delete k (some m) = some (erase bytes_discrete k m)

pub is_there : Option Value → Bool
is_there none = false
is_there (some v) = true

pub has : Map → Bytes → Bool
unfolding is_there at
has none k = false
has (some m) k = is_there (at k m)

abbrev pub entries_of : Map → Entries
entries_of none = []
entries_of (some m) = m

pub merge : Map → Map → Map
unfolding copy
merge m other = some (copy (entries_of m) (entries_of other))

-- Decoding and encoding of an object and of a struct; `fields` is what an object holds after the
-- struct was encoded and decoded into it.
pub record Codec (T : Type 0) : Type 0 where
  pub decode_object : Bytes → Option Entries
  pub encode_object : Entries → Option Bytes
  pub decode : Bytes → Option T
  pub encode : T → Option Bytes
  pub fields : T → Entries

-- `StructMap`
pub record StructMap (T : Type 0) : Type 0 where
  pub content : T
  pub others : Map

module _ {T : Type 0} (codec : Codec T) where
  -- `Map.UnmarshalJSON`: the map afterwards, and whether there was no error.
  pub unmarshal_map : Bytes → Map → Map × Bool
  unmarshal_map b m =
      if ltb 4096 (length b)
      then (m, false)
      else elim (codec.decode_object b) [ none ↦ (m, false) | some o ↦ (some o, true) ]

  -- `StructMap.UnmarshalJSON`; a struct that does not decode is left as it was.
  pub unmarshal : Bytes → StructMap T → StructMap T × Bool
  unfolding unmarshal_map
  unmarshal b s =
      let read = unmarshal_map b s.others in
      if read.1
      then elim (codec.decode b) [
        | none ↦ (record s { others = read.0 }, false)
        | some c ↦ (record { content = c; others = read.0 }, true)
      ]
      else (record s { others = read.0 }, false)

  -- `StructMap.MarshalJSON`: the struct afterwards, whose map is written to, and the text.
  pub marshal : StructMap T → StructMap T × Option Bytes
  unfolding copy
  marshal s = elim s.others [
    | none ↦ (s, codec.encode s.content)
    | some m ↦
        (let all = copy m (codec.fields s.content) in
          (record s { others = some all }, codec.encode_object all))
  ]
