-- ===== src/Orm/OneRow.antt =====
-- A table with at most one row, in place of gorm, for the tests. A query is the test of a row; the save
-- of a row that `refused` holds for fails.
use goddd.Common.Int.{pos}
use goddd.Orm.Gorm.{Gorm}
use goddd.Common.{
  [], ◌⊎◌, arith, ◌≡◌, ◌==◌, if◌then◌else◌, Option, Bool, ◌∷◌, inr, inl, some, none, true, refl, ℕ,
}

module _ {Row : Type 0} (refused : Row → Bool) where
  -- The row that a query selects.
  abbrev pub selected : (Row → Bool) → Option Row → Option Row
  selected q none = none
  selected q (some r) = if q r then some r else none

  abbrev pub first_of : (Row → Bool) → Row → Option Row → Row × Option ℕ
  first_of q m d = elim (selected q d) [ some r ↦ (r, none) | none ↦ (m, some 1) ]

  abbrev pub save_in : (Row → Bool) → Row → Option Row → Option Row × (Row × Option ℕ)
  save_in q r d = if refused r then (d, (r, some 2)) else (some r, (r, none))

  abbrev pub delete_in : (Row → Bool) → Row → Option Row → Option Row × (Row × Option ℕ)
  delete_in q m d = elim (selected q d) [ some r ↦ (none, (r, none)) | none ↦ (d, (m, none)) ]

  abbrev pub committed : Option Row × (Row × Option ℕ) → Option Row → Option Row × (Row × Option ℕ)
  committed (s, (r, none)) d = (s, (r, none))
  committed (s, (r, some e)) d = (d, (r, some e))

  pub save_in_fails :
      (q : Row → Bool) (m r : Row) (e : ℕ) (d d' : Option Row)
      → save_in q m d ≡ (d', (r, some e))
      → d' ≡ d
  save_in_fails q m r e d d' h = ground (arith, h)

  pub delete_in_fails :
      (q : Row → Bool) (m r : Row) (e : ℕ) (d d' : Option Row)
      → delete_in q m d ≡ (d', (r, some e))
      → d' ≡ d
  delete_in_fails q m r e d d' h = ground (arith, h)

  pub committed_lem :
      (o : Option Row × (Row × Option ℕ)) (d : Option Row)
      → ((committed o d ≡ o) × (o.1.1 ≡ none))
        ⊎ (((committed o d).0 ≡ d) × ((e : ℕ) × ((committed o d).1.1 ≡ some e)))
  committed_lem (s, (r, none)) d = inl (refl, refl)
  committed_lem (s, (r, some e)) d = inr (refl, (e, refl))

  abbrev pub one_row : Gorm Row
  one_row = record {
    Db = Option Row;
    Query = Row → Bool;
    Err = ℕ;
    where_is_empty = 3;
    is_not_found = λ e. e == 1;
    fresh = λ r. true;
    locking = λ q. q;
    returning = λ q. q;
    limited = λ l o q. q;
    first = first_of;
    count = λ q d. elim (selected q d) [ some r ↦ (pos 1, none) | none ↦ (pos 0, none) ];
    find = λ q d. elim (selected q d) [ some r ↦ (r ∷ [], none) | none ↦ ([], none) ];
    save = save_in;
    create = save_in;
    delete = delete_in;
    transaction = λ f m d. committed (f m d) d;
    save_fails = save_in_fails;
    create_fails = save_in_fails;
    delete_fails = delete_in_fails;
    transaction_lem = λ f m d. committed_lem (f m d) d;
  }
