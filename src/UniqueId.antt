-- ===== src/UniqueId.antt =====
-- domain/uniqueid: `IDManager` and `Core`. Random texts are tried until the database takes one as a
-- new primary key.
-- The random numbers are a sequence `noise` with the position of the next one; `rand.Int` gives the
-- number at the position, taken modulo its bound, and `none` is its panic at the bound 0.
-- The table is behind `UniqueIDStorer`, the record `Storer` here.
pub mod Generate
pub mod Fresh
mod Examples
use goddd.Common.{
  ℕ, zero, suc, ◌+◌, ◌%◌, ◌≡◌, Bool, true, false, not, ◌&&◌, ◌||◌, List, [], ◌∷◌, ◌++◌, Option,
  none, some, length, get_elem?, if◌then◌else◌,
}
use goddd.Common.Text.{Bytes, codes, same}

abbrev pub letter_bytes_36_no_oi : Bytes
letter_bytes_36_no_oi = codes "abcdefghjklmnpqrstuvwxyz0123456789"

abbrev pub letter_bytes_72 : Bytes
letter_bytes_72 = codes "abcdefghijklmnopqrstuvwxyzABCDEFGHIJKLMNOPQRSTUVWXYZ0123456789"

abbrev pub letter_bytes_36 : Bytes
letter_bytes_36 = codes "abcdefghijklmnopqrstuvwxyz0123456789"

abbrev pub letter_bytes_36_upper : Bytes
letter_bytes_36_upper = codes "ABCDEFGHIJKLMNOPQRSTUVWXYZ0123456789"

-- A table of ids with a primary key. A call reports whether it succeeded; what fails changes
-- nothing, and only a new id can be created.
pub record Storer : Type 1 where
  pub Db : Type 0
  pub has : Db → Bytes → Bool
  pub create : Bytes → Db → Db × Bool
  pub delete : Bytes → Db → Db × Bool
  pub create_new : (id : Bytes) (d : Db) → (create id d).1 ≡ true → has d id ≡ false
  pub create_adds :
      (id j : Bytes) (d : Db)
      → (create id d).1 ≡ true
      → has (create id d).0 j ≡ (same id j || has d j)
  pub create_fails : (id : Bytes) (d : Db) → (create id d).1 ≡ false → (create id d).0 ≡ d
  pub delete_removes :
      (id j : Bytes) (d : Db)
      → (delete id d).1 ≡ true
      → has (delete id d).0 j ≡ (not (same id j) && has d j)
  pub delete_fails : (id : Bytes) (d : Db) → (delete id d).1 ≡ false → (delete id d).0 ≡ d

-- `GenerateRandomString`: the text and the next position.
pub generate_random_string : (ℕ → ℕ) → Bytes → ℕ → ℕ → Option (Bytes × ℕ)
generate_random_string noise letters zero at = some ([], at)
generate_random_string noise letters (suc n) at =
    let rest = generate_random_string noise letters n (at + 1) in
    elim (get_elem? letters (noise at % length letters)) [
      | none ↦ none
      | some c ↦ elim rest [ none ↦ none | some (w, at') ↦ some (c ∷ w, at') ]
    ]

module _ (st : Storer) (noise : ℕ → ℕ) where
  pub record Manager : Type 0 where
    pub db : st.Db
    pub at : ℕ
    pub letter_bytes : Bytes

  pub new_id_manager : st.Db → ℕ → Manager
  new_id_manager d at = record { db = d; at = at; letter_bytes = letter_bytes_36 }

  pub set_letter_bytes : Bytes → Manager → Manager
  set_letter_bytes letters m = record m { letter_bytes = letters }

  -- The inner loop, `for range 36`: an id if an attempt succeeded.
  pub attempts : ℕ → Bytes → ℕ → Manager → Option (Manager × Option Bytes)
  attempts zero pre n m = some (m, none)
  attempts (suc r) pre n m = elim (generate_random_string noise m.letter_bytes n m.at) [
    | none ↦ none
    | some (w, at') ↦
        let (d, created) = st.create (pre ++ w) m.db in
        let rest = attempts r pre n (record m { db = d; at = at' }) in
        if created then some (record m { db = d; at = at' }, some (pre ++ w)) else rest
  ]

  -- The outer loop, `for i := range 10`, with the rounds left and the length of the round.
  pub lengths : ℕ → Bytes → ℕ → Manager → Option (Manager × Option Bytes)
  lengths zero pre n m = some (m, none)
  lengths (suc r) pre n m = elim (attempts 36 pre n m) [
    | none ↦ none
    | some (m', some id) ↦ some (m', some id)
    | some (m', none) ↦ lengths r pre (n + 1) m'
  ]

  abbrev pub unknown : Bytes
  unknown = codes "unknown"

  abbrev pub or_unknown : Manager × Option Bytes → Manager × Bytes
  or_unknown (m, none) = (m, unknown)
  or_unknown (m, some id) = (m, id)

  -- `UniqueID`
  pub unique_id : Bytes → ℕ → Manager → Option (Manager × Bytes)
  unique_id pre n m = elim (lengths 10 pre n m) [ none ↦ none | some r ↦ some (or_unknown r) ]

  pub undo_unique_id : Bytes → Manager → Manager × Bool
  undo_unique_id id m = let (d, done) = st.delete id m.db in (record m { db = d }, done)

  -- `Core`: a manager and the length of its ids.
  pub record Core : Type 0 where
    pub manager : Manager
    pub length_of_ids : ℕ

  pub new_core : st.Db → ℕ → ℕ → Core
  new_core d at n = record { manager = new_id_manager d at; length_of_ids = n }

  pub core_unique_id : Bytes → Core → Option (Manager × Bytes)
  core_unique_id pre c = unique_id pre c.length_of_ids c.manager

  pub unique_id_with_custom_len : Bytes → ℕ → Core → Option (Manager × Bytes)
  unique_id_with_custom_len pre n c = unique_id pre n c.manager

  pub core_undo_unique_id : Bytes → Core → Manager × Bool
  core_undo_unique_id id c = undo_unique_id id c.manager
