-- ===== src/Token/Db.antt =====
-- The storage tokendb of domain/token, over pkg/orm, and the calls of `Core` in domain/token/token.go
-- that use it with no cache between.
pub mod Fails
mod Examples
use goddd.Web.Pager.{PagerFilter, offset, limit}
use goddd.Common.Int.{pos, ℤ}
use goddd.Orm.Update.{
  first_with_context, delete_with_context, update_with_context, QueryOption, list_with_context,
  Done,
}
use goddd.Orm.Update
use goddd.Orm.Gorm.{Gorm}
use goddd.Token.{cache_key, Token}
use goddd.Common.Text.{Bytes}
use goddd.Common.{◌≡◌, map, if◌then◌else◌, List, [], Option, ◌∷◌, some, none, ℕ}

-- The statements that change many rows and return them.
pub data Statement : Type 0 where
  set_reason : Bytes → Bytes → ℤ → Bytes → Statement
  delete_user : Bytes → Bytes → Statement
  delete_before : ℤ → Statement

-- The conditions and the statements of the table `tokens`, as gorm runs them. A statement that fails
-- changes nothing.
pub record Tokens (g : Gorm Token) : Type 0 where
  pub where_id : ℕ → QueryOption g
  pub where_hash : Bytes → QueryOption g
  pub newest_first : QueryOption g
  pub run_statement : Statement → g.Db → g.Db × (List Token × Option g.Err)
  pub statement_fails :
      (s : Statement) (rows : List Token) (e : g.Err) (d d' : g.Db)
      → run_statement s d ≡ (d', (rows, some e))
      → d' ≡ d

-- `AddTokenInput` and `EditTokenInput`.
pub record TokenInput : Type 0 where
  pub user_id : Bytes
  pub scope : Bytes
  pub hash : Bytes
  pub expired_at : ℤ

-- What `Core` answers: a value, ErrDB, ErrNotFound, or it does not return but panics.
pub data Reply (A : Type 0) : Type 0 where
  answers : A → Reply A
  database_error : Reply A
  missing : Reply A
  panicked : Reply A

-- `var out Token`
abbrev pub no_token : Token
no_token = record {
  id = 0;
  user_id = [];
  scope = [];
  hash = [];
  created_at = pos 0;
  updated_at = pos 0;
  expired_at = pos 0;
  reason = [];
}

-- `copier` is github.com/jinzhu/copier: what Copy leaves in the token.
module _ (g : Gorm Token) (t : Tokens g) (copier : TokenInput → Token → Token) where
  -- The keys in the cache of the rows that a statement returned.
  pub keys_of : g.Db × (List Token × Option g.Err) → g.Db × Option (List Bytes)
  unfolding cache_key
  keys_of (d, (rows, some e)) = (d, none)
  keys_of (d, (rows, none)) = (d, some (map cache_key rows))

  pub expire : Bytes → Bytes → ℤ → Bytes → g.Db → g.Db × Option (List Bytes)
  unfolding keys_of
  expire scope user_id now reason d =
      keys_of (t.run_statement (set_reason scope user_id now reason) d)

  pub delete_all_for_user : Bytes → Bytes → g.Db → g.Db × Option (List Bytes)
  unfolding keys_of
  delete_all_for_user scope user_id d = keys_of (t.run_statement (delete_user scope user_id) d)

  pub delete_expired : ℤ → g.Db → g.Db × Option (List Bytes)
  unfolding keys_of
  delete_expired before d = keys_of (t.run_statement (delete_before before) d)

  -- What a call that writes one row answers.
  pub written : Done g → g.Db × Reply Token
  written (d, (m, some e)) = (d, database_error)
  written (d, (m, none)) = (d, answers m)

  pub create_token : TokenInput → ℤ → g.Db → g.Db × Reply Token
  unfolding written
  create_token input now d =
      written (Update.create g (record (copier input no_token) { updated_at = now }) d)

  pub answered : g.Db → Option (Done g) → g.Db × Reply Token
  unfolding written
  answered d none = (d, panicked)
  answered d (some done) = written done

  pub update_token : TokenInput → ℕ → g.Db → g.Db × Reply Token
  unfolding answered
  update_token input id d =
      answered d (update_with_context g (copier input) (t.where_id id ∷ []) no_token d)

  pub delete_token : ℕ → g.Db → g.Db × Reply Token
  unfolding written
  delete_token id d = written (delete_with_context g (t.where_id id ∷ []) no_token d)

  -- What was read, or was not.
  pub read_reply : Option (Token × Option g.Err) → Reply Token
  read_reply none = panicked
  read_reply (some (m, none)) = answers m
  read_reply (some (m, some e)) = if g.is_not_found e then missing else database_error

  -- `GetToken` gives no condition to `Get`.
  pub get_token : ℕ → g.Db → Reply Token
  unfolding read_reply
  get_token id d = read_reply (first_with_context g [] (record no_token { id = id }) d)

  -- `ListTokens`: of the fields of its input it uses the page.
  pub list_tokens : PagerFilter → g.Db → Reply (List Token × ℤ)
  list_tokens f d =
      let (items, (total, err)) =
        list_with_context g (some (limit f, offset f)) (t.newest_first ∷ []) [] d in
      elim err [ none ↦ answers (items, total) | some e ↦ database_error ]
