-- ===== src/UniqueId/Examples.antt =====
-- A table in memory, and ids made with it.
use goddd.Common.{
  ℕ, ◌≡◌, ◌⊎◌, refl, Bool, true, false, not, ◌&&◌, ◌||◌, List, [], ◌∷◌, some, arith, if◌then◌else◌,
}
use goddd.Common.Text.{Bytes, codes, same, same_iff, contains}
use goddd.UniqueId.{
  Storer, Manager, new_id_manager, unique_id, attempts, lengths, generate_random_string, unknown,
  letter_bytes_36,
}
use goddd.UniqueId.Fresh.{IsCreated, unique_id_lem}

remove : Bytes → List Bytes → List Bytes
remove s [] = []
remove s (t ∷ ts) = let rest = remove s ts in if same s t then rest else t ∷ rest

same_sym : (s t : Bytes) → same s t ≡ same t s
same_sym s t = ground (arith, same_iff s t, same_iff t s)

contains-remove :
    (s j : Bytes) (ts : List Bytes) → contains (remove s ts) j ≡ (not (same s j) && contains ts j)
unfolding contains remove
contains-remove s j [] = ground arith
contains-remove s j (t ∷ ts) =
    ground (arith, contains-remove s j ts, same_iff s t, same_iff s j, same_iff t j)

create_in : Bytes → List Bytes → List Bytes × Bool
create_in id d = if contains d id then (d, false) else (id ∷ d, true)

create_in_new : (id : Bytes) (d : List Bytes) → (create_in id d).1 ≡ true → contains d id ≡ false
unfolding create_in
create_in_new id d h = ground arith

create_in_adds :
    (id j : Bytes) (d : List Bytes)
    → (create_in id d).1 ≡ true
    → contains (create_in id d).0 j ≡ (same id j || contains d j)
unfolding create_in contains
create_in_adds id j d h = ground arith

create_in_fails :
    (id : Bytes) (d : List Bytes) → (create_in id d).1 ≡ false → (create_in id d).0 ≡ d
unfolding create_in
create_in_fails id d h = ground arith

not_failed : (id : Bytes) (d : List Bytes) → true ≡ false → remove id d ≡ d
not_failed id d h = cc

abbrev in_memory : Storer
in_memory = record {
  Db = List Bytes;
  has = contains;
  create = create_in;
  delete = λ id d. (remove id d, true);
  create_new = create_in_new;
  create_adds = create_in_adds;
  create_fails = create_in_fails;
  delete_removes = λ id j d h. contains-remove id j d;
  delete_fails = not_failed;
}

-- The random numbers 0, 1, 2 and so on.
counting : ℕ → ℕ
counting n = n

-- "abc" is taken already.
abbrev start : Manager in_memory counting
start = new_id_manager in_memory counting (codes "pabc" ∷ []) 0

abbrev first_call : Manager in_memory counting
first_call = record {
  db = codes "pdef" ∷ codes "pabc" ∷ [];
  at = 6;
  letter_bytes = letter_bytes_36;
}

abbrev second_call : Manager in_memory counting
second_call = record {
  db = codes "pghi" ∷ codes "pdef" ∷ codes "pabc" ∷ [];
  at = 9;
  letter_bytes = letter_bytes_36;
}

first_run : unique_id in_memory counting (codes "p") 3 start ≡ some (first_call, codes "pdef")
unfolding unique_id lengths attempts generate_random_string new_id_manager create_in contains same
    counting
first_run = refl

second_run :
    unique_id in_memory counting (codes "p") 3 first_call ≡ some (second_call, codes "pghi")
unfolding unique_id lengths attempts generate_random_string create_in contains same counting
second_run = refl

unique_id_lem_example :
    (m' : Manager in_memory counting) × (id : Bytes) × (unique_id in_memory counting
        (codes "p")
        3
        start
      ≡ some (m', id))
    × (m'.letter_bytes ≡ start.letter_bytes)
    × (IsCreated in_memory counting start.letter_bytes (codes "p") 3 13 start.db m'.db id
        ⊎ ((id ≡ unknown in_memory counting) × (m'.db ≡ start.db)))
unfolding new_id_manager
unique_id_lem_example = unique_id_lem in_memory counting (codes "p") 3 start (omega arith)
