-- ===== src/Orm/Update.antt =====
-- pkg/orm/update.go, over the calls of gorm. A model is passed by a pointer: each function returns it
-- as it is afterwards. `none` is the panic on an empty list of conditions.
pub mod Atomic
mod Examples
use goddd.Common.Int.{leb_ℤ, pos, ℤ}
use goddd.Orm.Gorm.{Gorm}
use goddd.Common.{if◌then◌else◌, [], Option, List, ◌∷◌, some, none, ℕ}

module _ {Row : Type 0} (g : Gorm Row) where
  -- `QueryOption`
  abbrev pub QueryOption : Type 0
  QueryOption = g.Query → g.Query

  -- What a call on a model ends with.
  abbrev pub Done : Type 0
  Done = g.Db × (Row × Option g.Err)

  -- `for _, opt := range opts { db = opt(db) }`
  pub apply_opts : List QueryOption → g.Query → g.Query
  apply_opts [] q = q
  apply_opts (opt ∷ opts) q = apply_opts opts (opt q)

  -- `FirstWithContext`, and `First` and `Get`, which call it.
  pub first_with_context : List QueryOption → Row → g.Db → Option (Row × Option g.Err)
  unfolding apply_opts
  first_with_context [] out d = none
  first_with_context (o ∷ os) out d = some (g.first (apply_opts (o ∷ os) g.fresh) out d)

  -- `Type.Create`
  pub create : Row → g.Db → Done
  create model d = g.create g.fresh model d

  -- After the change, and after the read with a lock.
  pub save_if : Row × Option g.Err → g.Db → Done
  save_if (r, some e) d = (d, (r, some e))
  save_if (r, none) d = g.save g.fresh r d

  pub save_changed : (Row → Row × Option g.Err) → Row × Option g.Err → g.Db → Done
  unfolding save_if
  save_changed change (r, some e) d = (d, (r, some e))
  save_changed change (r, none) d = save_if (change r) d

  -- What runs in the transaction of an update, and in that of a caller.
  pub update_body : (Row → Row × Option g.Err) → List QueryOption → Row → g.Db → Done
  unfolding save_changed apply_opts
  update_body change opts model d =
      save_changed change (g.first (apply_opts opts (g.locking g.fresh)) model d) d

  pub update_with_context2 :
      (Row → Row × Option g.Err) → List QueryOption → Row → g.Db → Option Done
  unfolding update_body
  update_with_context2 change [] model d = none
  update_with_context2 change (o ∷ os) model d =
      some (g.transaction (update_body change (o ∷ os)) model d)

  -- The change cannot fail.
  pub update_with_context : (Row → Row) → List QueryOption → Row → g.Db → Option Done
  unfolding update_body
  update_with_context change [] model d = none
  update_with_context change (o ∷ os) model d =
      some (g.transaction (update_body (λ r. (change r, none)) (o ∷ os)) model d)

  pub update_with_session : (Row → Row × Option g.Err) → List QueryOption → Row → g.Db → Option Done
  unfolding update_body
  update_with_session change [] model d = none
  update_with_session change (o ∷ os) model d = some (update_body change (o ∷ os) model d)

  -- Here an empty list of conditions is an error.
  pub delete_with_context : List QueryOption → Row → g.Db → Done
  unfolding apply_opts
  delete_with_context [] model d = (d, (model, some g.where_is_empty))
  delete_with_context (o ∷ os) model d =
      g.delete (apply_opts (o ∷ os) (g.returning g.fresh)) model d

  -- The count is read after the query has set it.
  pub count_with_context : List QueryOption → g.Db → ℤ × Option g.Err
  unfolding apply_opts
  count_with_context opts d = g.count (apply_opts opts g.fresh) d

  -- `Limit()` and `Offset()` of a pager that may be nil.
  pub limit_of : Option (ℤ × ℤ) → ℤ
  limit_of none = pos 9999
  limit_of (some p) = p.0

  pub offset_of : Option (ℤ × ℤ) → ℤ
  offset_of none = pos 0
  offset_of (some p) = p.1

  -- `ListWithContext`: the rows, the total and the error.
  pub list_with_context :
      Option (ℤ × ℤ) → List QueryOption → List Row → g.Db → List Row × (ℤ × Option g.Err)
  unfolding apply_opts limit_of offset_of
  list_with_context p opts out d =
      let q = apply_opts opts g.fresh in
      let (total, err) = g.count q d in
      elim err [
        | some e ↦ (out, (total, some e))
        | none ↦
            if leb_ℤ total (pos 0)
            then (out, (total, none))
            else (let (rows, e) = g.find (g.limited (limit_of p) (offset_of p) q) d in
                (rows, (total, e)))
      ]

  -- A transaction of several functions, as `Session` of the storages makes it.
  pub run_all : List (g.Db → g.Db × Option g.Err) → g.Db → g.Db × Option g.Err
  run_all [] d = (d, none)
  run_all (fn ∷ fns) d =
      let (d', e) = fn d in elim e [ none ↦ run_all fns d' | some x ↦ (d', some x) ]

  pub session : List (g.Db → g.Db × Option g.Err) → Row → g.Db → Done
  unfolding run_all
  session fns model d = g.transaction (λ r s. ((run_all fns s).0, (r, (run_all fns s).1))) model d
