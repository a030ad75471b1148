-- ===== src/Web/Auth/Level.antt =====
-- The levels that AuthLevel lets pass.
use goddd.Common.Assoc.{lookup-insert_self, lookup-insert_ne, lookup}
use goddd.Web.Auth.Pass.{before, or_else, auth_middleware-new_token}
use goddd.Common.Text.{bytes_discrete, codes, Bytes}
use goddd.Reason.{Error}
use goddd.Common.Int.{negsuc, ◌+ℤ◌, ◌<ℤ◌, ◌≤ℤ◌, pos, leb_ℤ, ltb_ℤ, ℤ}
use goddd.Web.Auth.{
  key_user_id, int, key_level, number_of, lookup, auth_middleware, bearer, six_hours, new_token,
  IsExact, Values, handled_by, Bytes, next, Jwt, put, set_user_id, Request, set_level, get_level,
  Error, get_uid, auth_level,
}
use goddd.Common.{
  ap, ◌∙◌, zero, suc, ◌++◌, length, ◌<◌, [], arith, Bool-cases, ◌≢◌, ◌⊎◌, ◌↔◌, ◌&&◌, ◌≡◌, Bool,
  ◌||◌, List, inr, inl, some, false, true, refl,
}

refused_iff :
    (level l : ℤ)
    → ((ltb_ℤ level l || (leb_ℤ l (pos 0) && leb_ℤ (pos 0) l)) ≡ false)
      ↔ ((l ≤ℤ level) × (l ≢ pos 0))
refused_iff level (pos zero) = ((λ h. ground arith), λ h. absurd (h.1 refl))
refused_iff level (pos (suc n)) = ((λ h. (ground arith, λ p. ground arith)), λ h. ground arith)
refused_iff level (negsuc n) = ((λ h. (ground arith, λ p. ground arith)), λ h. ground arith)

-- A request passes the level check just if a filter lets it pass, or its level is not zero and at
-- most the one that is asked; and what passes is passed on as it came.
pub auth_level_iff :
    (e : Error) (level : ℤ) (fns : List (Request → Bool)) (r : Request)
    → (auth_level e level fns r ≡ next r)
      ↔ ((handled_by fns r ≡ true) ⊎ ((get_level r ≤ℤ level) × (get_level r ≢ pos 0)))
unfolding auth_level
auth_level_iff e level fns r =
    let test = refused_iff level (get_level r) in
    elim (Bool-cases (handled_by fns r)) [
      | inl h ↦ ((λ p. inl h), λ p. rw h refl)
      | inr h ↦
          elim (Bool-cases (
            ltb_ℤ level (get_level r)
            || (leb_ℤ (get_level r) (pos 0) && leb_ℤ (pos 0) (get_level r)))) [
              | inl b ↦ ((λ p. ground (arith, h, b, p)), λ p. ground (arith, h, b, p, test))
              | inr b ↦ ((λ p. inr (test.0 b)), λ p. rw h (rw b refl))
            ]
    ]

lookup-set_level :
    (l : ℤ) (m : Values) → lookup bytes_discrete key_level (set_level l m) ≡ some (int l)
unfolding set_level put
lookup-set_level l m = lookup-insert_self bytes_discrete key_level (int l) m

lookup-set_user_id :
    (uid l : ℤ) (m : Values)
    → lookup bytes_discrete key_user_id (set_level l (set_user_id uid m)) ≡ some (int uid)
unfolding set_level set_user_id put
lookup-set_user_id uid l m =
    lookup-insert_ne bytes_discrete key_level key_user_id (int l) (set_user_id uid m)
      (λ e. ground (arith, e))
    ∙ lookup-insert_self bytes_discrete key_user_id (int uid) m

-- A token is issued at `t` with the default options, with a user and a level, integers of at most 2^53
-- in size, and with other entries, under distinct keys of UTF-8, each such an integer, a float or a
-- text of UTF-8, and it is not empty; the name of the issuer is UTF-8. A request whose header is
-- "Bearer " and the token is let in by the middleware that has the same secret and no handlers, from
-- `t` up to its expiry six hours later, cut to the second: then the user is the one it was issued
-- with, and the check of a level without handlers lets the request pass just if its level is not
-- zero and at most the one asked.
pub auth_level-auth_middleware :
    (j : Jwt) (e : Error) (secret token : Bytes) (others : Values) (uid l level t later : ℤ)
    (r : Request)
    → IsExact j.is_utf8 (set_level l (set_user_id uid others))
    → j.is_utf8 (codes "xx@golang.space") ≡ true
    → new_token j (set_level l (set_user_id uid others)) secret [] t ≡ some token
    → 0 < length token
    → t ≤ℤ later
    → later <ℤ j.numeric_date (t +ℤ six_hours)
    → r.authorization ≡ bearer ++ token
    → (s : Request) × (auth_middleware j e secret [] later r ≡ next s)
      × (get_uid s ≡ uid)
      × ((auth_level e level [] s ≡ next s) ↔ ((l ≤ℤ level) × (l ≢ pos 0)))
unfolding get_uid get_level number_of handled_by
auth_level-auth_middleware j e secret token others uid l level t later r x u new n from upto a =
    let entries = set_level l (set_user_id uid others) in
    let p =
      auth_middleware-new_token j e secret token entries [] t later r x u new n from upto refl a in
    let has_level =
      p.2 key_level
      ∙ ap (λ o. number_of (or_else o (before (bearer ++ token) r key_level)))
          (lookup-set_level l (set_user_id uid others)) in
    let iff = auth_level_iff e level [] p.0 in
    (
      p.0,
      p.1,
      p.2 key_user_id
          ∙ ap (λ o. number_of (or_else o (before (bearer ++ token) r key_user_id)))
              (lookup-set_user_id uid l others),
      (
        (λ q. elim (iff.0 q) [ inl f ↦ ground (arith, f) | inr g ↦ rw (← has_level) g ]),
        λ q. iff.1 (inr (rw has_level q)),
      ),
    )
