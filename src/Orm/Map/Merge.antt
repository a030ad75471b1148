-- ===== src/Orm/Map/Merge.antt =====
-- What stands under a key after maps are merged, and after a struct is read and written.
use goddd.Common.Text.{bytes_discrete, Bytes}
use goddd.Common.Assoc.{lookup-insert_ne, lookup-insert_self, insert, IsDistinct, lookup}
use goddd.Orm.Map.{
  is_there, StructMap, Entries, Codec, entries_of, Map, unmarshal_map, put, Bytes, has, unmarshal,
  lookup, copy, Value, get, merge, at, marshal,
}
use goddd.Common.{
  arith, sym, ltb, ap, ◌∙◌, false, [], if_neg, if_pos, ◌≤◌, ◌||◌, length, ◌≡◌, Option, ◌∷◌, some,
  none, true, refl, ℕ,
}

abbrev pub or_else : Option Value → Option Value → Option Value
or_else (some v) o = some v
or_else none o = o

at-copy :
    (k : Bytes) (m o : Entries)
    → IsDistinct bytes_discrete o
    → at k (copy m o) ≡ or_else (at k o) (at k m)
unfolding at copy put lookup
at-copy k m [] d = refl
at-copy k m ((j, v) ∷ o) d = elim (bytes_discrete j k) [
  | yes p ↦
      rw (at-copy k (insert bytes_discrete j v m) o d.1)
        (rw (if_pos _ p) (rw (← p) (rw d.0 (rw (lookup-insert_self bytes_discrete j v m) refl))))
  | no p ↦
      rw (at-copy k (insert bytes_discrete j v m) o d.1)
        (rw (if_neg _ p) (rw (lookup-insert_ne bytes_discrete j k v m p) refl))
]

at-entries_of : (k : Bytes) (m : Map) → at k (entries_of m) ≡ get m k
unfolding get at lookup
at-entries_of k none = refl
at-entries_of k (some m) = refl

is_there-or_else : (a b : Option Value) → is_there (or_else a b) ≡ (is_there a || is_there b)
unfolding is_there
is_there-or_else none b = refl
is_there-or_else (some v) b = refl

has_lem : (m : Map) (k : Bytes) → has m k ≡ is_there (get m k)
unfolding has get is_there
has_lem none k = refl
has_lem (some m) k = refl

-- Merging, on nil maps too: under each key stands what the other map has there, and else what the map
-- had; so `Has` holds of the result just if it holds of one of the two.
pub get-merge :
    (m o : Map) (k : Bytes)
    → IsDistinct bytes_discrete (entries_of o)
    → (get (merge m o) k ≡ or_else (get o k) (get m k)) × (has (merge m o) k ≡ (has o k || has m k))
unfolding merge get has
get-merge m o k d =
    let found =
      at-copy k (entries_of m) (entries_of o) d
      ∙ ap (λ x. or_else x (at k (entries_of m))) (at-entries_of k o)
      ∙ ap (λ x. or_else (get o k) x) (at-entries_of k m) in
    (
      found,
      ap is_there found
          ∙ is_there-or_else (get o k) (get m k)
          ∙ ap (λ x. x || is_there (get m k)) (sym (has_lem o k))
          ∙ ap (λ x. has o k || x) (sym (has_lem m k)),
    )

not_longer : (n : ℕ) → n ≤ 4096 → ltb 4096 n ≡ false
not_longer n h = ground arith

unmarshal_map_lem :
    {T : Type 0} (codec : Codec T) (b : Bytes) (m : Map) (o : Entries)
    → length b ≤ 4096
    → codec.decode_object b ≡ some o
    → unmarshal_map codec b m ≡ (some o, true)
unfolding unmarshal_map
unmarshal_map_lem codec b m o l h = rw (not_longer (length b) l) (rw h refl)

unmarshal_lem :
    {T : Type 0} (codec : Codec T) (b : Bytes) (s : StructMap T) (o : Entries) (c : T)
    → length b ≤ 4096
    → codec.decode_object b ≡ some o
    → codec.decode b ≡ some c
    → unmarshal codec b s ≡ (record { content = c; others = some o }, true)
unfolding unmarshal
unmarshal_lem codec b s o c l h e =
    let map_read = unmarshal_map_lem codec b s.others o l h in
    rw map_read (rw e (ap (λ x. (record { content = c; others = x.0 }, true)) map_read))

-- A struct that is read from a text of at most 4096 bytes and written again keeps what it does not
-- know: the object that is written has the fields of the struct, and under every other key what the
-- text had; and the map that it holds is then this object.
pub marshal-unmarshal :
    {T : Type 0} (codec : Codec T) (b : Bytes) (s : StructMap T) (o : Entries) (c : T) (k : Bytes)
    → length b ≤ 4096
    → codec.decode_object b ≡ some o
    → codec.decode b ≡ some c
    → IsDistinct bytes_discrete (codec.fields c)
    → ((unmarshal codec b s).1 ≡ true)
      × (all : Entries) × (marshal codec (unmarshal codec b s).0
          ≡ (record { content = c; others = some all }, codec.encode_object all))
      × (at k all ≡ or_else (at k (codec.fields c)) (at k o))
unfolding marshal
marshal-unmarshal codec b s o c k l h e d =
    let was_read = unmarshal_lem codec b s o c l h e in
    (
      ap (λ r. r.1) was_read,
      copy o (codec.fields c),
      ap (λ r. marshal codec r.0) was_read,
      at-copy k o (codec.fields c) d,
    )
