-- ===== src/Token/Db/Fails.antt =====
-- What the calls on the table `tokens` leave when they report an error.
use goddd.Common.Text.{Bytes}
use goddd.Common.Int.{ℤ}
use goddd.Orm.Update.{apply_opts, create, QueryOption, delete_with_context, Done}
use goddd.Orm.Update.Atomic.{
  update-Updates, Updates, delete_with_context_fails, delete_with_context_lem,
  first_with_context_empty,
}
use goddd.Token.Db.{
  set_reason, delete_user, delete_before, answered, read_reply, answers, no_token, panicked,
  delete_all_for_user, delete_expired, expire, database_error, delete_token, keys_of, get_token,
  create_token, Statement, update_token, Reply, written, TokenInput, Tokens,
}
use goddd.Token.{cache_key, Token}
use goddd.Orm.Gorm.{Gorm}
use goddd.Orm.Update
use goddd.Orm.Update.Atomic
use mathlib.Core.Path.{subst}
use goddd.Common.{◌∙◌, ap, sym, map, ◌⊎◌, [], ◌≡◌, Option, List, ◌∷◌, inr, inl, some, none, refl, ℕ}

module _ (g : Gorm Token) (t : Tokens g) (copier : TokenInput → Token → Token) where
  -- An error, and the table is as it was; or `Ran` holds of what the calls of gorm left, the table, a
  -- token and no error, and the answer is that token.
  abbrev pub Replies : (Done g → Type 0) → g.Db → g.Db × Reply Token → Type 0
  Replies Ran d (d', r) =
      ((d' ≡ d) × (r ≡ database_error)) ⊎ ((m : Token) × Ran (d', (m, none)) × (r ≡ answers m))

  -- The token of the input was inserted.
  abbrev pub Created : TokenInput → ℤ → g.Db → Done g → Type 0
  Created input now d out =
      g.create g.fresh (record (copier input no_token) { updated_at = now }) d ≡ out

  -- The row of the id was read, with a lock, and saved with the input in it.
  abbrev pub Updated : TokenInput → ℕ → g.Db → Done g → Type 0
  Updated input id d out =
      (row : Token) × (g.first (apply_opts g (t.where_id id ∷ []) (g.locking g.fresh)) no_token d
        ≡ (row, none))
      × (g.save g.fresh (copier input row) d ≡ out)

  -- The rows of the id were deleted.
  abbrev pub Deleted : ℕ → g.Db → Done g → Type 0
  Deleted id d out =
      g.delete (apply_opts g (t.where_id id ∷ []) (g.returning g.fresh)) no_token d ≡ out

  -- An error, and the table is as it was; or the statement had none, and the keys are those of the rows
  -- that it returned.
  abbrev pub Lists : Statement → g.Db → g.Db × Option (List Bytes) → Type 0
  Lists s d (d', keys) =
      ((d' ≡ d) × (keys ≡ none))
      ⊎ ((rows : List Token) × (t.run_statement s d ≡ (d', (rows, none)))
          × (keys ≡ some (map cache_key rows)))

  written-Replies :
      (Ran : Done g → Type 0) (out : Done g) (d : g.Db)
      → ((e : g.Err) → out.1.1 ≡ some e → out.0 ≡ d)
      → (out.1.1 ≡ none → Ran out)
      → Replies Ran d (written g t copier out)
  unfolding written
  written-Replies Ran (d', (m, some e)) d h ran = inl (h e refl, refl)
  written-Replies Ran (d', (m, none)) d h ran = inr (m, ran refl, refl)

  Updates-Updated :
      (input : TokenInput) (id : ℕ) (d : g.Db) (out : Done g)
      → Updates g (λ r. (copier input r, none)) (t.where_id id ∷ []) no_token d out
      → out.1.1 ≡ none
      → Updated input id d out
  Updates-Updated input id d out (inl (same, failed)) ok = absurd (let h = failed.1 in cc)
  Updates-Updated input id d out (inr (r, s, read, change, saved, none_then)) ok =
      (r, read, ap (λ m. g.save g.fresh m d) (ap (λ c. c.0) change) ∙ saved)

  Updates-fails :
      (change : Token → Token × Option g.Err) (opts : List (QueryOption g)) (m : Token) (d : g.Db)
      (out : Done g) (e : g.Err)
      → Updates g change opts m d out
      → out.1.1 ≡ some e
      → out.0 ≡ d
  Updates-fails change opts m d out e (inl failed) h = failed.0
  Updates-fails change opts m d out e (inr done) h = absurd (let n = done.5 in cc)

  update_token-Replies :
      (input : TokenInput) (id : ℕ) (d : g.Db)
      → Replies (Updated input id d) d (update_token g t copier input id d)
  unfolding update_token answered
  update_token-Replies input id d =
      let (out, does, ends) =
        (update-Updates g (λ r. (copier input r, none)) (copier input) (t.where_id id) [] no_token
          d).2 in
      subst (λ o. Replies (Updated input id d) d (answered g t copier d o)) (sym does)
        (written-Replies (Updated input id d) out d
          (λ e h.
            Updates-fails (λ r. (copier input r, none)) (t.where_id id ∷ []) no_token d out e ends
              h)
          (Updates-Updated input id d out ends))

  -- `CreateToken`, `UpdateToken` and `DeleteToken` never panic. Each either reports ErrDB, and then the
  -- table is as it was, or it returns the token that gorm left without an error: the first inserted
  -- the token of the input with the time, the second read the row of the id under a lock and saved
  -- it with the input, and the third deleted by the id.
  pub unchanged_by_error :
      (input : TokenInput) (id : ℕ) (now : ℤ) (d : g.Db)
      → Replies (Created input now d) d (create_token g t copier input now d)
        × Replies (Updated input id d) d (update_token g t copier input id d)
        × Replies (Deleted id d) d (delete_token g t copier id d)
  unfolding create_token delete_token
  unchanged_by_error input id now d = (
    (let m : Token = record (copier input no_token) { updated_at = now } in
        written-Replies (Created input now d) (Update.create g m d) d (Atomic.create_fails g m d)
          (λ ok. Atomic.create_lem g m d)),
    update_token-Replies input id d,
    written-Replies (Deleted id d) (delete_with_context g (t.where_id id ∷ []) no_token d) d
        (delete_with_context_fails g (t.where_id id ∷ []) no_token d)
        (λ ok. delete_with_context_lem g (t.where_id id) [] no_token d),
  )

  keys_of-Lists :
      (s : Statement) (d : g.Db) (out : g.Db × (List Token × Option g.Err))
      → t.run_statement s d ≡ out
      → Lists s d (keys_of g t copier out)
  unfolding keys_of
  keys_of-Lists s d (d', (rows, some e)) h = inl (t.statement_fails s rows e d d' h, refl)
  keys_of-Lists s d (d', (rows, none)) h = inr (rows, h, refl)

  -- `Expire`, `DeleteAllForUser` and `DeleteExpired` run one statement: they report an error, and the table
  -- is as it was, or they return the keys in the cache of all the rows that the statement returned.
  pub statements-Lists :
      (scope user_id reason : Bytes) (time : ℤ) (d : g.Db)
      → Lists
          (set_reason scope user_id time reason)
          d
          (expire g t copier scope user_id time reason d)
        × Lists (delete_user scope user_id) d (delete_all_for_user g t copier scope user_id d)
        × Lists (delete_before time) d (delete_expired g t copier time d)
  unfolding expire delete_all_for_user delete_expired
  statements-Lists scope user_id reason time d =
      let lists = λ (s : Statement). keys_of-Lists s d (t.run_statement s d) refl in
      (
        lists (set_reason scope user_id time reason),
        lists (delete_user scope user_id),
        lists (delete_before time),
      )

  -- `GetToken` never returns.
  pub get_token_panics : (id : ℕ) (d : g.Db) → get_token g t copier id d ≡ panicked
  unfolding get_token read_reply
  get_token_panics id d =
      ap (read_reply g t copier) (first_with_context_empty g (record no_token { id = id }) d)
