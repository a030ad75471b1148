-- ===== src/Token.antt =====
-- domain/token: sessions by a secret text, of which the table holds the hash.
-- The record `Token` and the interface `TokenStorer`. A row is read by its hash, as `Valid` does.
pub mod Cached
pub mod Db
pub mod Sessions
mod OneRow
mod Examples
use goddd.Common.{ℕ, ◌≡◌, ◌≢◌, Bool, true, false, List, [], ◌∷◌, Option, none, some}
use mathlib.Core.List.{Mem}
use goddd.Common.Int.{ℤ}
use goddd.Common.Text.{Bytes, hex}

-- domain/token/token.model.go, with each time as an integer.
pub record Token : Type 0 where
  pub id : ℕ
  pub user_id : Bytes
  pub scope : Bytes
  pub hash : Bytes
  pub created_at : ℤ
  pub updated_at : ℤ
  pub expired_at : ℤ
  pub reason : Bytes

pub cache_key : Token → Bytes
cache_key t = hex t.hash

-- What a read of the table returns: a row, gorm's ErrRecordNotFound, or another error.
pub data Read : Type 0 where
  found : Token → Read
  not_found : Read
  failed : Read

-- The three calls that change many rows: they return the written hashes of the rows.
pub data Bulk : Type 0 where
  expire : Bytes → Bytes → Bytes → Bulk
  delete_all_for_user : Bytes → Bytes → Bulk
  delete_expired : ℤ → Bulk

-- The condition of an update: `hash = ?` or `id = ?`.
pub data Which : Type 0 where
  by_hash : Bytes → Which
  by_id : ℕ → Which

abbrev pub Selects : Which → Token → Type 0
Selects (by_hash h) t = t.hash ≡ h
Selects (by_id i) t = t.id ≡ i

-- `TokenStorer` over a table. `row d h` is the row with a hash. Each call may fail, and then nothing
-- has changed; `none` of a call that changes the table is its error. No two rows have one hash, which
-- is what the laws of `create` and `update` ask of their callers.
pub record TokenStorer : Type 1 where
  pub Db : Type 0
  pub row : Db → Bytes → Option Token
  pub get : Bytes → Db → Read
  pub create : Token → Db → Db × Option Token
  pub update : Which → (Token → Token) → Db → Db × Option Token
  pub delete : ℕ → Db → Db × Option Token
  pub bulk : Bulk → Db → Db × Option (List Bytes)
  pub row_hash : (d : Db) (h : Bytes) (t : Token) → row d h ≡ some t → t.hash ≡ h
  pub get_found : (h : Bytes) (d : Db) (t : Token) → get h d ≡ found t → row d h ≡ some t
  pub create_row :
      (t s : Token) (j : Bytes) (d d' : Db)
      → row d t.hash ≡ none
      → create t d ≡ (d', some s)
      → (s.hash ≡ t.hash) × (row d' s.hash ≡ some s) × (j ≢ s.hash → row d' j ≡ row d j)
  pub create_fails : (t : Token) (d d' : Db) → create t d ≡ (d', none) → d' ≡ d
  pub update_row :
      (w : Which) (f : Token → Token) (s : Token) (j : Bytes) (d d' : Db)
      → ((t : Token) → (f t).hash ≡ t.hash)
      → update w f d ≡ (d', some s)
      → (t : Token) × Selects w t
        × (row d t.hash ≡ some t)
        × (s ≡ record (f t) { updated_at = s.updated_at })
        × (row d' s.hash ≡ some s)
        × (j ≢ s.hash → row d' j ≡ row d j)
  pub update_fails :
      (w : Which) (f : Token → Token) (d d' : Db) → update w f d ≡ (d', none) → d' ≡ d
  pub delete_row :
      (i : ℕ) (s : Token) (j : Bytes) (d d' : Db)
      → delete i d ≡ (d', some s)
      → (row d' s.hash ≡ none) × (j ≢ s.hash → row d' j ≡ row d j)
  pub delete_fails : (i : ℕ) (d d' : Db) → delete i d ≡ (d', none) → d' ≡ d
  pub bulk_row :
      (b : Bulk) (keys : List Bytes) (j : Bytes) (d d' : Db)
      → bulk b d ≡ (d', some keys)
      → ¬ Mem (hex j) keys
      → row d' j ≡ row d j
  pub bulk_fails : (b : Bulk) (d d' : Db) → bulk b d ≡ (d', none) → d' ≡ d
