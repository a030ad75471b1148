-- ===== src/Orm/Update/Atomic.antt =====
-- An update is made whole or not at all.
use mathlib.Core.Path.{subst}
use goddd.Orm.Update.{
  first_with_context, delete_with_context, create, save_if, session, apply_opts, run_all,
  update_with_session, update_with_context2, QueryOption, Done, save_changed, update_with_context,
  update_body,
}
use goddd.Orm.Gorm.{Gorm}
use goddd.Common.{
  [], ◌∙◌, sym, ◌⊎◌, ap, Option-cases, ◌≡◌, Option, List, ◌∷◌, inr, inl, some, none, refl,
}

module _ {Row : Type 0} (g : Gorm Row) where
  -- What the part behind the read may end with: an error, and the database is as it was; or none, and
  -- then the row `read` was found, changed without an error and saved.
  abbrev Saves : (Row → Row × Option g.Err) → Row × Option g.Err → g.Db → Done g → Type 0
  Saves change read d out =
      ((out.0 ≡ d) × ((e : g.Err) × (out.1.1 ≡ some e)))
      ⊎ ((r s : Row) × (read ≡ (r, none))
          × (change r ≡ (s, none))
          × (g.save g.fresh s d ≡ out)
          × (out.1.1 ≡ none))

  -- What an update of `model` may end with: an error, and the database is as it was; or none, and then
  -- the row that all the conditions select, read under a lock, was changed without an error, and the
  -- changed row was saved.
  abbrev pub Updates :
      (Row → Row × Option g.Err) → List (QueryOption g) → Row → g.Db → Done g → Type 0
  Updates change opts model d out =
      ((out.0 ≡ d) × ((e : g.Err) × (out.1.1 ≡ some e)))
      ⊎ ((r s : Row) × (g.first (apply_opts g opts (g.locking g.fresh)) model d ≡ (r, none))
          × (change r ≡ (s, none))
          × (g.save g.fresh s d ≡ out)
          × (out.1.1 ≡ none))

  save-Saves :
      (change : Row → Row × Option g.Err) (r s : Row) (d : g.Db)
      → change r ≡ (s, none)
      → Saves change (r, none) d (g.save g.fresh s d)
  save-Saves change r s d c = elim (Option-cases (g.save g.fresh s d).1.1) [
    | inl h ↦ inr (r, s, refl, c, refl, h)
    | inr (e, h) ↦ inl (
      g.save_fails g.fresh s (g.save g.fresh s d).1.0 e d (g.save g.fresh s d).0
          (ap (λ o. ((g.save g.fresh s d).0, ((g.save g.fresh s d).1.0, o))) h),
      (e, h),
    )
  ]

  save_if-Saves :
      (change : Row → Row × Option g.Err) (r : Row) (changed : Row × Option g.Err) (d : g.Db)
      → change r ≡ changed
      → Saves change (r, none) d (save_if g changed d)
  unfolding save_if
  save_if-Saves change r (s, none) d c = save-Saves change r s d c
  save_if-Saves change r (s, some e) d c = inl (refl, (e, refl))

  save_changed-Saves :
      (change : Row → Row × Option g.Err) (read : Row × Option g.Err) (d : g.Db)
      → Saves change read d (save_changed g change read d)
  unfolding save_changed
  save_changed-Saves change (r, some e) d = inl (refl, (e, refl))
  save_changed-Saves change (r, none) d = save_if-Saves change r (change r) d refl

  update_body-Updates :
      (change : Row → Row × Option g.Err) (opts : List (QueryOption g)) (model : Row) (d : g.Db)
      → Updates change opts model d (update_body g change opts model d)
  unfolding update_body
  update_body-Updates change opts model d =
      save_changed-Saves change (g.first (apply_opts g opts (g.locking g.fresh)) model d) d

  transaction-Updates :
      (change : Row → Row × Option g.Err) (opts : List (QueryOption g)) (model : Row) (d : g.Db)
      → Updates change opts model d (g.transaction (update_body g change opts) model d)
  transaction-Updates change opts model d =
      elim (g.transaction_lem (update_body g change opts) model d) [
        | inl (same, ok) ↦
            subst (Updates change opts model d) (sym same) (update_body-Updates change opts model d)
        | inr failed ↦ inl failed
      ]

  -- With at least one condition, an update does not panic, in a transaction of its own or in one of the
  -- caller: it ends with an error and the database is as it was, or with none, and then the row that
  -- all the conditions select was changed without an error and saved. For a change that cannot fail
  -- it is the same.
  pub update-Updates :
      (change : Row → Row × Option g.Err) (simple : Row → Row) (opt : QueryOption g)
      (opts : List (QueryOption g)) (model : Row) (d : g.Db)
      → ((out : Done g) × (update_with_context2 g change (opt ∷ opts) model d ≡ some out)
          × Updates change (opt ∷ opts) model d out)
        × ((out : Done g) × (update_with_session g change (opt ∷ opts) model d ≡ some out)
            × Updates change (opt ∷ opts) model d out)
        × ((out : Done g) × (update_with_context g simple (opt ∷ opts) model d ≡ some out)
            × Updates (λ r. (simple r, none)) (opt ∷ opts) model d out)
  unfolding update_with_context update_with_context2 update_with_session
  update-Updates change simple opt opts model d = (
    (
      g.transaction (update_body g change (opt ∷ opts)) model d,
      refl,
      transaction-Updates change (opt ∷ opts) model d,
    ),
    (
      update_body g change (opt ∷ opts) model d,
      refl,
      update_body-Updates change (opt ∷ opts) model d,
    ),
    (
      g.transaction (update_body g (λ r. (simple r, none)) (opt ∷ opts)) model d,
      refl,
      transaction-Updates (λ r. (simple r, none)) (opt ∷ opts) model d,
    ),
  )

  -- The functions lead from the one database to the other, one after the other, and none of them fails.
  abbrev pub AllSucceed : List (g.Db → g.Db × Option g.Err) → g.Db → g.Db → Type 0
  AllSucceed [] d d' = d ≡ d'
  AllSucceed (fn ∷ fns) d d' = ((fn d).1 ≡ none) × AllSucceed fns (fn d).0 d'

  run_all_fails :
      (fn : g.Db → g.Db × Option g.Err) (fns : List (g.Db → g.Db × Option g.Err)) (d : g.Db)
      (e : g.Err)
      → (fn d).1 ≡ some e
      → (run_all g (fn ∷ fns) d).1 ≡ some e
  unfolding run_all
  run_all_fails fn fns d e h = rw (run_all, h) refl

  run_all_step :
      (fn : g.Db → g.Db × Option g.Err) (fns : List (g.Db → g.Db × Option g.Err)) (d : g.Db)
      → (run_all g (fn ∷ fns) d).1 ≡ none
      → ((fn d).1 ≡ none) × (run_all g (fn ∷ fns) d ≡ run_all g fns (fn d).0)
  unfolding run_all
  run_all_step fn fns d ok = elim (Option-cases (fn d).1) [
    | inl h ↦ (h, rw h refl)
    | inr (e, h) ↦ absurd (let u = run_all_fails fn fns d e h in cc)
  ]

  run_all-AllSucceed :
      (fns : List (g.Db → g.Db × Option g.Err)) (d : g.Db)
      → (run_all g fns d).1 ≡ none
      → AllSucceed fns d (run_all g fns d).0
  unfolding run_all
  run_all-AllSucceed [] d ok = refl
  run_all-AllSucceed (fn ∷ fns) d ok =
      let (first_ok, same) = run_all_step fn fns d ok in
      (
        first_ok,
        subst (AllSucceed fns (fn d).0) (sym (ap (λ o. o.0) same))
            (run_all-AllSucceed fns (fn d).0 (sym (ap (λ o. o.1) same) ∙ ok)),
      )

  -- A session ends without an error, and then its functions led to the database that it leaves, one after
  -- the other, and none of them failed; or it ends with an error, and the database is as it was.
  pub session_lem :
      (fns : List (g.Db → g.Db × Option g.Err)) (model : Row) (d : g.Db)
      → (((session g fns model d).1.1 ≡ none) × AllSucceed fns d (session g fns model d).0)
        ⊎ (((session g fns model d).0 ≡ d) × ((e : g.Err) × ((session g fns model d).1.1 ≡ some e)))
  unfolding session
  session_lem fns model d =
      elim (g.transaction_lem (λ r s. ((run_all g fns s).0, (r, (run_all g fns s).1))) model d) [
        | inl (same, ok) ↦ inl (
          ap (λ o. o.1.1) same ∙ ok,
          subst (AllSucceed fns d) (ap (λ o. o.0) (sym same)) (run_all-AllSucceed fns d ok),
        )
        | inr failed ↦ inr failed
      ]

  pub first_with_context_empty : (out : Row) (d : g.Db) → first_with_context g [] out d ≡ none
  unfolding first_with_context
  first_with_context_empty out d = refl

  pub create_lem : (m : Row) (d : g.Db) → g.create g.fresh m d ≡ create g m d
  unfolding create
  create_lem m d = refl

  pub delete_with_context_lem :
      (opt : QueryOption g) (opts : List (QueryOption g)) (m : Row) (d : g.Db)
      → g.delete (apply_opts g (opt ∷ opts) (g.returning g.fresh)) m d
        ≡ delete_with_context g (opt ∷ opts) m d
  unfolding delete_with_context
  delete_with_context_lem opt opts m d = refl

  pub create_fails :
      (m : Row) (d : g.Db) (e : g.Err) → (create g m d).1.1 ≡ some e → (create g m d).0 ≡ d
  unfolding create
  create_fails m d e h =
      g.create_fails g.fresh m (g.create g.fresh m d).1.0 e d (g.create g.fresh m d).0
        (ap (λ o. ((g.create g.fresh m d).0, ((g.create g.fresh m d).1.0, o))) h)

  pub delete_with_context_fails :
      (opts : List (QueryOption g)) (m : Row) (d : g.Db) (e : g.Err)
      → (delete_with_context g opts m d).1.1 ≡ some e
      → (delete_with_context g opts m d).0 ≡ d
  unfolding delete_with_context
  delete_with_context_fails [] m d e h = refl
  delete_with_context_fails (o ∷ os) m d e h =
      let q = apply_opts g (o ∷ os) (g.returning g.fresh) in
      g.delete_fails q m (g.delete q m d).1.0 e d (g.delete q m d).0
        (ap (λ r. ((g.delete q m d).0, ((g.delete q m d).1.0, r))) h)
