-- ===== src/Web/Auth/Examples.antt =====
-- A signer of tokens for one shape of claims, and what it lets in.
use goddd.Common.Assoc.{insert, lookup}
use goddd.Web.Auth.Level.{auth_level-auth_middleware}
use goddd.Web.Auth.Pass.{auth_middleware_next, admitted, auth_middleware-new_token, seen}
use goddd.Reason.{Error}
use mathlib.Core.Option.{some-injective}
use goddd.Common.Int.{◌≤ℤ◌, negsuc, pos, ℤ}
use goddd.Common.Text.{bytes_discrete, same_iff, codes, same, Bytes}
use goddd.Web.Auth.{
  lookup, text_of, parse_token, get_uid, to_lower, number_of, put, get_int, equal_fold,
  apply_options, set_user_id, check_token, bearer, next, Request, new_token, set_level, Error,
  handled_by, auth_middleware, IsExact, auth_level, not_after, still_before, Jwt, any_other, text,
  float64, key_level, read_back_all, key_user_id, ℤ, int, Value, Values, Claims,
}
use mathlib.Core.Option
use goddd.Common.{
  drop, ◌≢◌, take, ◌↔◌, ◌++◌, true, [], ◌&&◌, arith, Bool-cases, if◌then◌else◌, ◌≡◌, Option, inr,
  inl, refl, ◌∷◌, some, none, ℕ,
}

count : Value → Option ℕ
count (int (pos n)) = some n
count _ = none

count_iff : (v : Value) (n : ℕ) → count v ≡ some n → v ≡ int (pos n)
unfolding count
count_iff (int (pos m)) n h = ground (arith, h)
count_iff (int (negsuc m)) n h = cc
count_iff (float64 m) n h = cc
count_iff (text s) n h = cc
count_iff any_other n h = cc

moment : Option ℤ → Option ℕ
moment (some (pos n)) = some n
moment _ = none

moment_iff : (t : Option ℤ) (n : ℕ) → moment t ≡ some n → t ≡ some (pos n)
unfolding moment
moment_iff none n h = cc
moment_iff (some (pos m)) n h = ground (arith, h)
moment_iff (some (negsuc m)) n h = cc

-- The claims of a user and a level.
abbrev claims_of : ℕ → ℕ → ℕ → ℕ → Claims
claims_of uid level expires at = record {
  entries = (key_user_id, int (pos uid)) ∷ (key_level, int (pos level)) ∷ [];
  expires_at = some (pos expires);
  issued_at = some (pos at);
  not_before = none;
  issuer = codes "xx@golang.space";
}

pack : Option ℕ → Option ℕ → Option ℕ → Option ℕ → Bytes → Option Bytes
pack (some n) (some m) (some e) (some i) s = some (n ∷ m ∷ e ∷ i ∷ s)
pack _ _ _ _ s = none

sign : Values → Option ℤ → Option ℤ → Option ℤ → Bytes → Bytes → Option Bytes
unfolding pack count moment
sign ((k, v) ∷ (l, w) ∷ []) expires at none by secret =
    if same k key_user_id && (same l key_level && same by (codes "xx@golang.space"))
    then pack (count v) (count w) (moment expires) (moment at) secret
    else none
sign _ _ _ _ _ _ = none

read : Bytes → Bytes → Option Claims
read (n ∷ m ∷ e ∷ i ∷ s) secret =
    if same s secret
    then some (record (claims_of n m e i) { entries = read_back_all (claims_of n m e i).entries })
    else none
read _ _ = none

pack_iff :
    (a b c d : Option ℕ) (s t : Bytes)
    → pack a b c d s ≡ some t
    → (n m e i : ℕ) × (a ≡ some n)
      × (b ≡ some m)
      × (c ≡ some e)
      × (d ≡ some i)
      × (n ∷ m ∷ e ∷ i ∷ s ≡ t)
unfolding pack
pack_iff none b c d s t h = cc
pack_iff (some n) none c d s t h = cc
pack_iff (some n) (some m) none d s t h = cc
pack_iff (some n) (some m) (some e) none s t h = cc
pack_iff (some n) (some m) (some e) (some i) s t h =
    (n, m, e, i, refl, refl, refl, refl, some-injective _ _ h)

read_lem :
    (k l by secret : Bytes) (v w : Value) (expires at : Option ℤ) (n m e i : ℕ)
    → k ≡ key_user_id
    → l ≡ key_level
    → by ≡ codes "xx@golang.space"
    → v ≡ int (pos n)
    → w ≡ int (pos m)
    → expires ≡ some (pos e)
    → at ≡ some (pos i)
    → read (n ∷ m ∷ e ∷ i ∷ secret) secret
      ≡ some (record {
        entries = read_back_all ((k, v) ∷ (l, w) ∷ []);
        expires_at = Option.map (λ t. t) expires;
        issued_at = Option.map (λ t. t) at;
        not_before = none;
        issuer = by;
      })
unfolding read
read_lem k l by secret v w expires at n m e i a b c d f g h =
    rw a (rw b (rw c (rw d (rw f (rw g (rw h (rw ((same_iff secret secret).1 refl) refl)))))))

read-sign :
    (es : Values) (expires at begin : Option ℤ) (by secret token : Bytes)
    → sign es expires at begin by secret ≡ some token
    → read token secret
      ≡ some (record {
        entries = read_back_all es;
        expires_at = Option.map (λ t. t) expires;
        issued_at = Option.map (λ t. t) at;
        not_before = Option.map (λ t. t) begin;
        issuer = by;
      })
unfolding sign read
read-sign [] expires at begin by secret token h = cc
read-sign ((k, v) ∷ []) expires at begin by secret token h = cc
read-sign ((k, v) ∷ (l, w) ∷ x ∷ es) expires at begin by secret token h = cc
read-sign ((k, v) ∷ (l, w) ∷ []) expires at (some t) by secret token h = cc
read-sign ((k, v) ∷ (l, w) ∷ []) expires at none by secret token h =
    elim (Bool-cases
      (same k key_user_id && (same l key_level && same by (codes "xx@golang.space")))) [
        | inr b ↦ ground (arith, h, b)
        | inl b ↦
            (let p =
                pack_iff (count v) (count w) (moment expires) (moment at) secret token
                  (ground (arith, h, b)) in
              let key = (same_iff k key_user_id).0 (ground (arith, b)) in
              let second = (same_iff l key_level).0 (ground (arith, b)) in
              let signer = (same_iff by (codes "xx@golang.space")).0 (ground (arith, b)) in
              let first_value = count_iff v p.0 p.4 in
              let second_value = count_iff w p.1 p.5 in
              let until = moment_iff expires p.2 p.6 in
              let from = moment_iff at p.3 p.7 in
              rw (← p.8) (
                read_lem k l by secret v w expires at p.0 p.1 p.2 p.3 key second signer first_value
                  second_value until from))
      ]

no_later : (t : ℤ) → t ≤ℤ t
no_later t = ground arith

-- Times are not cut, and every text is UTF-8.
abbrev a_jwt : Jwt
a_jwt = record {
  numeric_date = λ t. t;
  is_utf8 = λ s. true;
  signed = λ c s. sign c.entries c.expires_at c.issued_at c.not_before c.issuer s;
  parsed = read;
  is_valid = λ c now.
      still_before c.expires_at now && not_after c.issued_at now && not_after c.not_before now;
  parsed-signed = λ c secret token x u h.
      read-sign c.entries c.expires_at c.issued_at c.not_before c.issuer secret token h;
  is_valid_lem = λ c now. refl;
  numeric_date_le = no_later;
  numeric_date_idem = λ t. refl;
}

abbrev err_unauthorized : Error
err_unauthorized = record {
  reason = "ErrUnauthorizedToken";
  msg = "token";
  details = [];
  http_status = 401;
}

abbrev secret : Bytes
secret = codes "k"

abbrev of_user : Values
of_user = (key_user_id, int (pos 7)) ∷ (key_level, int (pos 2)) ∷ []

abbrev a_token : Bytes
a_token = 7 ∷ 2 ∷ 21_600_000_000_005 ∷ 5 ∷ secret

abbrev a_request : Request
a_request = record { authorization = bearer ++ a_token; query_token = []; values = [] }

of_user_set : set_level (pos 2) (set_user_id (pos 7) []) ≡ of_user
unfolding set_level set_user_id put insert bytes_discrete same
of_user_set = refl

of_user-IsExact : IsExact (a_jwt.is_utf8) of_user
unfolding lookup bytes_discrete same
of_user-IsExact =
    (refl, refl, (ground arith, ground arith), (refl, refl, (ground arith, ground arith), tt))

issued_token : new_token a_jwt of_user secret [] (pos 5) ≡ some a_token
unfolding new_token apply_options sign pack count moment same
issued_token = refl

auth_middleware-new_token_example :
    (s : Request) × (auth_middleware a_jwt err_unauthorized secret [] (pos 9) a_request ≡ next s)
    × ((k : Bytes) → get_int s.values k ≡ number_of (seen of_user (bearer ++ a_token) a_request k))
    × ((k : Bytes)
        → text_of (lookup bytes_discrete k s.values)
          ≡ text_of (seen of_user (bearer ++ a_token) a_request k))
unfolding handled_by
auth_middleware-new_token_example =
    auth_middleware-new_token a_jwt err_unauthorized secret a_token of_user [] (pos 5) (pos 9)
      a_request of_user-IsExact refl issued_token (ground arith) (ground arith) (ground arith) refl
      refl

admitted_run :
    auth_middleware a_jwt err_unauthorized secret [] (pos 9) a_request
    ≡ next (admitted a_request (bearer ++ a_token) (read_back_all of_user))
unfolding auth_middleware check_token handled_by equal_fold to_lower same read parse_token
admitted_run = refl

auth_middleware_next_example :
    (c : Claims) × (auth : Bytes) × (auth ≡ bearer ++ a_token)
    × (equal_fold (take 7 auth) bearer ≡ true)
    × (parse_token a_jwt (drop 7 auth) secret ≡ some c)
    × (still_before c.expires_at (pos 9) ≡ true)
    × (not_after c.issued_at (pos 9) ≡ true)
    × (not_after c.not_before (pos 9) ≡ true)
    × (admitted a_request (bearer ++ a_token) (read_back_all of_user)
        ≡ admitted a_request auth c.entries)
unfolding handled_by same
auth_middleware_next_example =
    auth_middleware_next a_jwt err_unauthorized secret [] (pos 9) a_request
      (admitted a_request (bearer ++ a_token) (read_back_all of_user)) refl admitted_run

auth_level-auth_middleware_example :
    (s : Request) × (auth_middleware a_jwt err_unauthorized secret [] (pos 9) a_request ≡ next s)
    × (get_uid s ≡ pos 7)
    × ((auth_level err_unauthorized (pos 3) [] s ≡ next s) ↔ ((pos 2 ≤ℤ pos 3) × (pos 2 ≢ pos 0)))
unfolding set_level set_user_id put insert bytes_discrete same
auth_level-auth_middleware_example =
    auth_level-auth_middleware a_jwt err_unauthorized secret a_token [] (pos 7) (pos 2) (pos 3)
      (pos 5) (pos 9) a_request of_user-IsExact refl issued_token (ground arith) (ground arith)
      (ground arith) refl
