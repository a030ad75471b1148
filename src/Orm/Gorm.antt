-- ===== src/Orm/Gorm.antt =====
-- gorm.io/gorm, as pkg/orm calls it on one table. `Query` is a *gorm.DB with the clauses that it has so
-- far, and `Db` is what the database holds. A call that reads or writes a model returns the model as
-- it is then, and the error, if there is one.
use goddd.Common.Int.{ℤ}
use goddd.Common.{◌⊎◌, ◌≡◌, List, Option, Bool, some, none}

pub record Gorm (Row : Type 0) : Type 1 where
  pub Db : Type 0
  pub Query : Type 0
  pub Err : Type 0
  -- `fmt.Errorf("where is empty")`, and `errors.Is(err, gorm.ErrRecordNotFound)`.
  pub where_is_empty : Err
  pub is_not_found : Err → Bool
  -- A query without clauses, and the clauses that pkg/orm adds.
  pub fresh : Query
  pub locking : Query → Query
  pub returning : Query → Query
  pub limited : ℤ → ℤ → Query → Query
  pub first : Query → Row → Db → Row × Option Err
  pub count : Query → Db → ℤ × Option Err
  pub find : Query → Db → List Row × Option Err
  pub save : Query → Row → Db → Db × (Row × Option Err)
  pub create : Query → Row → Db → Db × (Row × Option Err)
  pub delete : Query → Row → Db → Db × (Row × Option Err)
  pub transaction : (Row → Db → Db × (Row × Option Err)) → Row → Db → Db × (Row × Option Err)
  -- A statement that fails changes nothing.
  pub save_fails :
      (q : Query) (m r : Row) (e : Err) (d d' : Db) → save q m d ≡ (d', (r, some e)) → d' ≡ d
  pub create_fails :
      (q : Query) (m r : Row) (e : Err) (d d' : Db) → create q m d ≡ (d', (r, some e)) → d' ≡ d
  pub delete_fails :
      (q : Query) (m r : Row) (e : Err) (d d' : Db) → delete q m d ≡ (d', (r, some e)) → d' ≡ d
  -- A transaction commits what its function did if that returns no error, and else rolls it back. It
  -- may fail itself, at its start or at the commit, and then it has changed nothing either.
  pub transaction_lem :
      (f : Row → Db → Db × (Row × Option Err)) (m : Row) (d : Db)
      → ((transaction f m d ≡ f m d) × ((f m d).1.1 ≡ none))
        ⊎ (((transaction f m d).0 ≡ d) × ((e : Err) × ((transaction f m d).1.1 ≡ some e)))
