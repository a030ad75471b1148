-- ===== src/Token/OneRow.antt =====
-- A table of at most one row, as a storage of tokens: calls fail only for want of a row or of room.
use mathlib.Core.Path.{subst}
use mathlib.Core.List.{Mem, mem-cons_self}
use mathlib.Core.Option.{some-injective}
use goddd.Common.{
  ℕ, ◌≡◌, ◌≢◌, ◌==◌, refl, sym, ap, ◌∙◌, Bool, true, false, ◌&&◌, Bool-cases, inl, inr, List, [],
  ◌∷◌, Option, none, some, arith, if◌then◌else◌, ==_iff,
}
use goddd.Common.Int.{ltb_ℤ, pos}
use goddd.Common.Text.{Bytes, hex, same, same_iff}
use goddd.Token.{
  Token, TokenStorer, Read, found, not_found, Bulk, expire, delete_all_for_user, delete_expired,
  Which, by_hash, by_id, Selects,
}

none≢some : {A : Type 0} {a : A} → none ≡ some a → ⊥
none≢some h = cc

unfoldable pub row_of : Option Token → Bytes → Option Token
row_of none h = none
row_of (some t) h = if same t.hash h then some t else none

unfoldable pub read_of : Bytes → Option Token → Read
unfolding row_of
read_of h d = elim (row_of d h) [ none ↦ not_found | some t ↦ found t ]

unfoldable pub create_in : Token → Option Token → Option Token × Option Token
create_in t none = (some t, some t)
create_in t (some u) = (some u, none)

selects : Which → Token → Bool
selects (by_hash h) t = same t.hash h
selects (by_id i) t = t.id == i

-- What saving a row sets.
abbrev saved : Token → Token
saved t = record t { updated_at = pos 1 }

unfoldable pub update_in : Which → (Token → Token) → Option Token → Option Token × Option Token
unfolding selects
update_in w f none = (none, none)
update_in w f (some t) =
    if selects w t then (some (saved (f t)), some (saved (f t))) else (some t, none)

unfoldable pub delete_in : ℕ → Option Token → Option Token × Option Token
delete_in i none = (none, none)
delete_in i (some t) = if t.id == i then (none, some t) else (some t, none)

unfoldable pub bulk_in : Bulk → Option Token → Option Token × Option (List Bytes)
bulk_in b none = (none, some [])
bulk_in (expire scope user reason) (some t) =
    if same t.scope scope && same t.user_id user
    then (some (record t { reason = reason }), some (hex t.hash ∷ []))
    else (some t, some [])
bulk_in (delete_all_for_user scope user) (some t) =
    if same t.scope scope && same t.user_id user
    then (none, some (hex t.hash ∷ []))
    else (some t, some [])
bulk_in (delete_expired before) (some t) =
    if ltb_ℤ t.expired_at before then (none, some (hex t.hash ∷ [])) else (some t, some [])

pub row_of-hash : (d : Option Token) (h : Bytes) (t : Token) → row_of d h ≡ some t → t.hash ≡ h
unfolding row_of
row_of-hash none h t e = cc
row_of-hash (some u) h t e = elim (Bool-cases (same u.hash h)) [
  | inl same_hash ↦
      ap (λ (v : Token). v.hash) (sym (some-injective _ _ (rw same_hash at e)))
      ∙ (same_iff u.hash h).0 same_hash
  | inr other ↦ absurd (none≢some (rw other at e))
]

pub read_of-row :
    (h : Bytes) (d : Option Token) (t : Token) → read_of h d ≡ found t → row_of d h ≡ some t
unfolding read_of row_of
read_of-row h d t e = ground (arith, e)

row_of_same : (t : Token) → row_of (some t) t.hash ≡ some t
unfolding row_of
row_of_same t = rw (same_iff t.hash t.hash).1 refl

row_of_other : (t : Token) (j : Bytes) → j ≢ t.hash → row_of (some t) j ≡ none
unfolding row_of
row_of_other t j h = elim (Bool-cases (same t.hash j)) [
  | inl e ↦ absurd (h (sym ((same_iff t.hash j).0 e)))
  | inr e ↦ rw e refl
]

-- What a call that writes one row returns, taken apart.
written :
    (t s : Token) (d' : Option Token)
    → ◌≡◌ {A = Option Token × Option Token} (some t, some t) (d', some s)
    → (s ≡ t) × (d' ≡ some t)
written t s d' e = (sym (some-injective _ _ (ap (λ r. r.1) e)), sym (ap (λ r. r.0) e))

pub create_in-row :
    (t s : Token) (j : Bytes) (d d' : Option Token)
    → row_of d t.hash ≡ none
    → create_in t d ≡ (d', some s)
    → (s.hash ≡ t.hash) × (row_of d' s.hash ≡ some s) × (j ≢ s.hash → row_of d' j ≡ row_of d j)
unfolding create_in row_of
create_in-row t s j none d' fresh e =
    let (is_t, holds_t) = written t s d' e in
    (
      ap (λ (v : Token). v.hash) is_t,
      rw holds_t (rw is_t (row_of_same t)),
      λ n. rw holds_t (row_of_other t j (rw is_t at n)),
    )
create_in-row t s j (some u) d' fresh e = absurd (none≢some (ap (λ r. r.1) e))

pub create_in_fails : (t : Token) (d d' : Option Token) → create_in t d ≡ (d', none) → d' ≡ d
unfolding create_in
create_in_fails t none d' e = ground (arith, e)
create_in_fails t (some u) d' e = ground (arith, e)

selects-Selects : (w : Which) (t : Token) → selects w t ≡ true → Selects w t
unfolding selects
selects-Selects (by_hash h) t e = (same_iff t.hash h).0 e
selects-Selects (by_id i) t e = (==_iff t.id i).0 e

pub update_in-row :
    (w : Which) (f : Token → Token) (s : Token) (j : Bytes) (d d' : Option Token)
    → ((t : Token) → (f t).hash ≡ t.hash)
    → update_in w f d ≡ (d', some s)
    → (t : Token) × Selects w t
      × (row_of d t.hash ≡ some t)
      × (s ≡ record (f t) { updated_at = s.updated_at })
      × (row_of d' s.hash ≡ some s)
      × (j ≢ s.hash → row_of d' j ≡ row_of d j)
unfolding update_in
update_in-row w f s j none d' keeps e = absurd (none≢some (ap (λ r. r.1) e))
update_in-row w f s j (some t) d' keeps e = elim (Bool-cases (selects w t)) [
  | inr other ↦ absurd (none≢some (ap (λ r. r.1) (rw other at e)))
  | inl chosen ↦
      let (is_f, holds_f) = written (saved (f t)) s d' (rw chosen at e) in
      (
        t,
        selects-Selects w t chosen,
        row_of_same t,
        subst (λ (v : Token). v ≡ record (f t) { updated_at = v.updated_at }) (sym is_f) refl,
        rw holds_f (rw is_f (row_of_same (saved (f t)))),
        λ n. rw holds_f (
            row_of_other (saved (f t)) j (rw is_f at n)
            ∙ sym (
                row_of_other t j
                  (λ p. n (p ∙ sym (keeps t) ∙ sym (ap (λ (v : Token). v.hash) is_f))))),
      )
]

pub update_in_fails :
    (w : Which) (f : Token → Token) (d d' : Option Token) → update_in w f d ≡ (d', none) → d' ≡ d
unfolding update_in
update_in_fails w f none d' e = ground (arith, e)
update_in_fails w f (some t) d' e = ground (arith, e)

pub delete_in-row :
    (i : ℕ) (s : Token) (j : Bytes) (d d' : Option Token)
    → delete_in i d ≡ (d', some s)
    → (row_of d' s.hash ≡ none) × (j ≢ s.hash → row_of d' j ≡ row_of d j)
unfolding delete_in row_of
delete_in-row i s j none d' e = absurd (none≢some (ap (λ r. r.1) e))
delete_in-row i s j (some t) d' e = elim (Bool-cases (t.id == i)) [
  | inr other ↦ absurd (none≢some (ap (λ r. r.1) (rw other at e)))
  | inl chosen ↦
      let gone : ◌≡◌ {A = Option Token × Option Token} (none, some t) (d', some s) =
        rw chosen at e in
      let is_t = some-injective _ _ (ap (λ r. r.1) gone) in
      (
        rw (← ap (λ r. r.0) gone) refl,
        λ n. rw (← ap (λ r. r.0) gone) (sym (row_of_other t j (rw (← is_t) at n))),
      )
]

pub delete_in_fails : (i : ℕ) (d d' : Option Token) → delete_in i d ≡ (d', none) → d' ≡ d
unfolding delete_in
delete_in_fails i none d' e = ground (arith, e)
delete_in_fails i (some t) d' e = ground (arith, e)

-- A call that changes the row, if a test holds, and then returns its key.
changed_row :
    (c : Bool) (t : Token) (d₁ d' : Option Token) (keys : List Bytes) (j : Bytes)
    → ◌≡◌ {A = Option Token × Option (List Bytes)}
        (if c then (d₁, some (hex t.hash ∷ [])) else (some t, some []))
        (d', some keys)
    → (j ≢ t.hash → row_of d₁ j ≡ none)
    → ¬ Mem (hex j) keys
    → row_of d' j ≡ row_of (some t) j
changed_row false t d₁ d' keys j e others n = ap (λ d. row_of d j) (sym (ap (λ r. r.0) e))
changed_row true t d₁ d' keys j e others n =
    let listed = some-injective _ _ (ap (λ r. r.1) e) in
    let other : j ≢ t.hash =
      λ p. n (subst (λ (l : List Bytes). Mem (hex j) l) listed (rw p (mem-cons_self))) in
    ap (λ d. row_of d j) (sym (ap (λ r. r.0) e)) ∙ others other ∙ sym (row_of_other t j other)

pub bulk_in-row :
    (b : Bulk) (keys : List Bytes) (j : Bytes) (d d' : Option Token)
    → bulk_in b d ≡ (d', some keys)
    → ¬ Mem (hex j) keys
    → row_of d' j ≡ row_of d j
unfolding bulk_in row_of
bulk_in-row b keys j none d' e n = rw (← ap (λ r. r.0) e) refl
bulk_in-row (expire scope user reason) keys j (some t) d' e n =
    changed_row (same t.scope scope && same t.user_id user) t (some (record t { reason = reason }))
      d' keys j e (row_of_other (record t { reason = reason }) j) n
bulk_in-row (delete_all_for_user scope user) keys j (some t) d' e n =
    changed_row (same t.scope scope && same t.user_id user) t none d' keys j e (λ o. refl) n
bulk_in-row (delete_expired before) keys j (some t) d' e n =
    changed_row (ltb_ℤ t.expired_at before) t none d' keys j e (λ o. refl) n

pub bulk_in_fails : (b : Bulk) (d d' : Option Token) → bulk_in b d ≡ (d', none) → d' ≡ d
unfolding bulk_in
bulk_in_fails b none d' e = ground (arith, e)
bulk_in_fails (expire scope user reason) (some t) d' e = ground (arith, e)
bulk_in_fails (delete_all_for_user scope user) (some t) d' e = ground (arith, e)
bulk_in_fails (delete_expired before) (some t) d' e = ground (arith, e)

abbrev pub one_row : TokenStorer
one_row = record {
  Db = Option Token;
  row = row_of;
  get = read_of;
  create = create_in;
  update = update_in;
  delete = delete_in;
  bulk = bulk_in;
  row_hash = row_of-hash;
  get_found = read_of-row;
  create_row = create_in-row;
  create_fails = create_in_fails;
  update_row = update_in-row;
  update_fails = update_in_fails;
  delete_row = delete_in-row;
  delete_fails = delete_in_fails;
  bulk_row = bulk_in-row;
  bulk_fails = bulk_in_fails;
}
