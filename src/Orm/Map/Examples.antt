-- ===== src/Orm/Map/Examples.antt =====
-- A struct of one field with another parameter beside it.
use goddd.Orm.Map.Merge.{marshal-unmarshal, or_else}
use goddd.Common.Int.{pos}
use goddd.Common.Text.{same, bytes_discrete, codes, Bytes}
use goddd.Orm.Map.{at, marshal, Entries, pos, unmarshal, int, text, StructMap, Map, Codec}
use goddd.Common.Assoc.{lookup}
use goddd.Common.{arith, ◌==◌, length, ◌≡◌, if◌then◌else◌, [], ◌∷◌, some, none, true, refl}

abbrev name : Bytes
name = codes "name"

abbrev age : Bytes
age = codes "age"

abbrev a_map : Map
a_map = some ((name, text (codes "x")) ∷ [])

abbrev b_map : Map
b_map = some ((age, int (pos 3)) ∷ (name, text (codes "y")) ∷ [])

-- The struct is the text of the name, and the only text that decodes is one byte long.
abbrev a_codec : Codec Bytes
a_codec = record {
  decode_object = λ b.
      if length b == 1 then some ((name, text (codes "x")) ∷ (age, int (pos 3)) ∷ []) else none;
  encode_object = λ o. some [];
  decode = λ b. if length b == 1 then some (codes "x") else none;
  encode = λ c. some c;
  fields = λ c. (name, text c) ∷ [];
}

abbrev empty : StructMap Bytes
empty = record { content = []; others = none }

marshal-unmarshal_example :
    ((unmarshal a_codec (1 ∷ []) empty).1 ≡ true)
    × (all : Entries) × (marshal a_codec (unmarshal a_codec (1 ∷ []) empty).0
        ≡ (record { content = codes "x"; others = some all }, some []))
    × (at age all
        ≡ or_else
            (at age ((name, text (codes "x")) ∷ []))
            (at age ((name, text (codes "x")) ∷ (age, int (pos 3)) ∷ [])))
unfolding lookup bytes_discrete same
marshal-unmarshal_example =
    marshal-unmarshal a_codec (1 ∷ []) empty ((name, text (codes "x")) ∷ (age, int (pos 3)) ∷ [])
      (codes "x") age (ground arith) refl refl (refl, tt)
