-- ===== src/Web/Auth/Pass.antt =====
-- A token that is issued passes the middleware, and nothing else does.
use goddd.Common.Int.{◌+ℤ◌, ◌<ℤ◌, ◌≤ℤ◌, ℤ}
use goddd.Reason.{Error}
use mathlib.Core.Option
use goddd.Web.Auth.{
  aborted, Outcome, not_after, still_before, apply_options, new_token, get_int, bearer, six_hours,
  handled_by, next, to_lower, parse_token, Claims, equal_fold, key_token_string, Error, ℤ, Request,
  auth_middleware, check_token, Jwt, any_other, text, float64, int, read_back, read_back_all,
  IsExact, put, Value, Values, set_all, text_of, number_of,
}
use goddd.Common.Text.{codes, same, bytes_discrete, Bytes}
use goddd.Common.Assoc.{
  lookup-insert_ne, lookup-insert_self, insert, lookup-insert, IsDistinct, lookup,
}
use goddd.Common.{
  not, ◌||◌, leb, sym, ◌&&◌, Option-cases, ◌≢◌, Bool-cases, inr, inl, drop, take, if◌then◌else◌,
  if_neg, if_pos, ◌++◌, length, ◌<◌, List, [], false, true, arith, ap, ◌∙◌, ◌∷◌, ◌≡◌, Bool, Option,
  some, none, refl,
}

abbrev pub or_else : Option Value → Option Value → Option Value
or_else (some v) o = some v
or_else none o = o

lookup-set_all :
    (k : Bytes) (kvs m : Values)
    → IsDistinct bytes_discrete kvs
    → lookup bytes_discrete k (set_all kvs m)
      ≡ or_else (lookup bytes_discrete k kvs) (lookup bytes_discrete k m)
unfolding set_all lookup put
lookup-set_all k [] m d = refl
lookup-set_all k ((j, v) ∷ kvs) m d =
    let here = lookup-insert bytes_discrete j k v m in
    let there = lookup-set_all k kvs (insert bytes_discrete j v m) d.1 in
    elim (bytes_discrete j k) [
      | yes p ↦
          rw there (
            rw (if_pos _ p) (rw (← p) (rw d.0 (rw (lookup-insert_self bytes_discrete j v m) refl))))
      | no p ↦ rw there (rw (if_neg _ p) (rw (lookup-insert_ne bytes_discrete j k v m p) refl))
    ]

lookup-read_back_all :
    (k : Bytes) (m : Values)
    → lookup bytes_discrete k (read_back_all m) ≡ Option.map read_back (lookup bytes_discrete k m)
unfolding lookup
lookup-read_back_all k [] = refl
lookup-read_back_all k ((j, v) ∷ m) = ground (arith, lookup-read_back_all k m)

read_back_all-IsDistinct :
    (u : Bytes → Bool) (m : Values) → IsExact u m → IsDistinct bytes_discrete (read_back_all m)
read_back_all-IsDistinct u [] e = tt
read_back_all-IsDistinct u ((k, v) ∷ m) e =
    (lookup-read_back_all k m ∙ ap (Option.map read_back) e.1, read_back_all-IsDistinct u m e.3)

-- A number is read as it was put in, through the float that JSON makes of it.
number_of-read_back :
    (o p : Option Value) → number_of (or_else (Option.map read_back o) p) ≡ number_of (or_else o p)
unfolding number_of
number_of-read_back none p = refl
number_of-read_back (some (int n)) p = refl
number_of-read_back (some (float64 n)) p = refl
number_of-read_back (some (text s)) p = refl
number_of-read_back (some any_other) p = refl

text_of-read_back :
    (o p : Option Value) → text_of (or_else (Option.map read_back o) p) ≡ text_of (or_else o p)
unfolding text_of
text_of-read_back none p = refl
text_of-read_back (some (int n)) p = refl
text_of-read_back (some (float64 n)) p = refl
text_of-read_back (some (text s)) p = refl
text_of-read_back (some any_other) p = refl

-- What a middleware passed on: the request it was given, with the values of the token, and the token.
abbrev pub admitted : Request → Bytes → Values → Request
admitted r auth entries = record r {
  values = set_all entries (put key_token_string (text auth) r.values);
}

-- The outcome of a token that reads as `c`, which is in time.
check_token_in_time :
    (j : Jwt) (e : Error) (secret auth token : Bytes) (now : ℤ) (r : Request) (c : Claims)
    → parse_token j token secret ≡ some c
    → j.is_valid c now ≡ true
    → check_token j e secret auth token now r ≡ next (admitted r auth c.entries)
unfolding check_token
check_token_in_time j e secret auth token now r c h v = ground (arith, h, v)

-- Behind "Bearer " stands the token.
bearer_token :
    (j : Jwt) (e : Error) (secret token : Bytes) (hs : List (Request → Bool)) (now : ℤ)
    (r : Request)
    → handled_by hs r ≡ false
    → 0 < length token
    → r.authorization ≡ bearer ++ token
    → auth_middleware j e secret hs now r ≡ check_token j e secret (bearer ++ token) token now r
unfolding auth_middleware same equal_fold to_lower
bearer_token j e secret [] hs now r h l a = ground arith
bearer_token j e secret (x ∷ xs) hs now r h l a = rw h (rw a (ground arith))

-- A new token is valid from when it is issued, at `t`, up to its expiry.
in_time :
    (j : Jwt) (t later : ℤ) (c : Claims)
    → t ≤ℤ later
    → later <ℤ j.numeric_date (t +ℤ six_hours)
    → c.expires_at ≡ some (j.numeric_date (t +ℤ six_hours))
    → c.issued_at ≡ some (j.numeric_date t)
    → c.not_before ≡ none
    → j.is_valid c later ≡ true
in_time j t later c h l e i n =
    let whole = j.numeric_date_le t in j.is_valid_lem c later ∙ rw e (rw i (rw n (ground arith)))

abbrev pub before : Bytes → Request → Bytes → Option Value
before auth r k = lookup bytes_discrete k (put key_token_string (text auth) r.values)

-- What a handler reads of the values that the middleware set: those of the token first, then the
-- token's own text, then what stood there before.
abbrev pub seen : Values → Bytes → Request → Bytes → Option Value
seen entries auth r k = or_else (lookup bytes_discrete k entries) (before auth r k)

seen-read_back :
    (u : Bytes → Bool) (entries : Values) (auth : Bytes) (r : Request) (k : Bytes)
    → IsExact u entries
    → lookup bytes_discrete k (admitted r auth (read_back_all entries)).values
      ≡ or_else (Option.map read_back (lookup bytes_discrete k entries)) (before auth r k)
seen-read_back u entries auth r k e =
    lookup-set_all k (read_back_all entries) (put key_token_string (text auth) r.values)
      (read_back_all-IsDistinct u entries e)
    ∙ ap (λ o. or_else o (before auth r k)) (lookup-read_back_all k entries)

-- The claims of a token that is issued with no option.
abbrev issued : Jwt → Values → ℤ → Claims
issued j entries t = record {
  entries = read_back_all entries;
  expires_at = some (j.numeric_date (t +ℤ six_hours));
  issued_at = some (j.numeric_date t);
  not_before = none;
  issuer = codes "xx@golang.space";
}

parse_token-new_token :
    (j : Jwt) (entries : Values) (secret token : Bytes) (t : ℤ)
    → IsExact j.is_utf8 entries
    → j.is_utf8 (codes "xx@golang.space") ≡ true
    → new_token j entries secret [] t ≡ some token
    → parse_token j token secret ≡ some (issued j entries t)
unfolding new_token parse_token apply_options
parse_token-new_token j entries [] token t e u h = cc
parse_token-new_token j entries (s ∷ secret) token t e u h =
    rw (← j.numeric_date_idem t)
      (rw (← j.numeric_date_idem (t +ℤ six_hours)) (j.parsed-signed _ (s ∷ secret) token e u h))

-- A token is issued at `t` with the default options and with entries under distinct keys of UTF-8, each
-- an integer of at most 2^53 in size, a float or a text of UTF-8, and it is not empty; the name of
-- the issuer is UTF-8. A request whose header is "Bearer " and the token is let in by the middleware
-- that has the same secret, at any time from `t` up to its expiry six hours later, cut to the second,
-- if no handler takes the request before: and what then reads the values of the request finds, under
-- each key of the entries, the number or the text that the token was issued with, through the JSON
-- between, and under another key what the request had, with the header kept as the token's text.
pub auth_middleware-new_token :
    (j : Jwt) (e : Error) (secret token : Bytes) (entries : Values) (hs : List (Request → Bool))
    (t later : ℤ) (r : Request)
    → IsExact j.is_utf8 entries
    → j.is_utf8 (codes "xx@golang.space") ≡ true
    → new_token j entries secret [] t ≡ some token
    → 0 < length token
    → t ≤ℤ later
    → later <ℤ j.numeric_date (t +ℤ six_hours)
    → handled_by hs r ≡ false
    → r.authorization ≡ bearer ++ token
    → (s : Request) × (auth_middleware j e secret hs later r ≡ next s)
      × ((k : Bytes) → get_int s.values k ≡ number_of (seen entries (bearer ++ token) r k))
      × ((k : Bytes)
          → text_of (lookup bytes_discrete k s.values)
            ≡ text_of (seen entries (bearer ++ token) r k))
unfolding get_int
auth_middleware-new_token j e secret token entries hs t later r x u new l from upto h a =
    let c = issued j entries t in
    let parsed = parse_token-new_token j entries secret token t x u new in
    let valid = in_time j t later c from upto refl refl refl in
    (
      admitted r (bearer ++ token) (read_back_all entries),
      bearer_token j e secret token hs later r h l a
          ∙ check_token_in_time j e secret (bearer ++ token) token later r c parsed valid,
      (λ k.
          rw (seen-read_back j.is_utf8 entries (bearer ++ token) r k x)
            (number_of-read_back (lookup bytes_discrete k entries) (before (bearer ++ token) r k))),
      λ k.
          rw (seen-read_back j.is_utf8 entries (bearer ++ token) r k x)
            (text_of-read_back (lookup bytes_discrete k entries) (before (bearer ++ token) r k)),
    )

-- The request that an outcome passes on, `r` if there is none.
abbrev passed_on : Request → Outcome → Request
passed_on r (next s) = s
passed_on r (aborted e) = r

check_token_unread :
    (j : Jwt) (e : Error) (secret auth token : Bytes) (now : ℤ) (r s : Request)
    → parse_token j token secret ≡ none
    → check_token j e secret auth token now r ≢ next s
unfolding check_token
check_token_unread j e secret auth token now r s p = ground (arith, p)

check_token_refused :
    (j : Jwt) (e : Error) (secret auth token : Bytes) (now : ℤ) (r s : Request) (c : Claims)
    → parse_token j token secret ≡ some c
    → j.is_valid c now ≡ false
    → check_token j e secret auth token now r ≢ next s
unfolding check_token
check_token_refused j e secret auth token now r s c p v = ground (arith, p, v)

check_token_next :
    (j : Jwt) (e : Error) (secret auth token : Bytes) (now : ℤ) (r s : Request)
    → check_token j e secret auth token now r ≡ next s
    → (c : Claims) × (parse_token j token secret ≡ some c)
      × (j.is_valid c now ≡ true)
      × (s ≡ admitted r auth c.entries)
check_token_next j e secret auth token now r s h =
    elim (Option-cases (parse_token j token secret)) [
      | inl p ↦ absurd (check_token_unread j e secret auth token now r s p h)
      | inr (c, p) ↦ elim (Bool-cases (j.is_valid c now)) [
        | inl v ↦ (
          c,
          p,
          v,
          ap (passed_on r) (sym h ∙ check_token_in_time j e secret auth token now r c p v),
        )
        | inr v ↦ absurd (check_token_refused j e secret auth token now r s c p v h)
      ]
    ]

-- Three tests that all hold.
and_parts : (a b c : Bool) → (a && b && c) ≡ true → (a ≡ true) × (b ≡ true) × (c ≡ true)
and_parts a b c h = ground arith

-- A request that no handler takes and that has a token reaches the next handler only if what stands
-- behind the prefix "Bearer ", in any case, reads as claims under the secret, which have not expired
-- at that time and which were issued and begin no later: what is passed on is that request, with the
-- token and then the values of these claims set.
pub auth_middleware_next :
    (j : Jwt) (e : Error) (secret : Bytes) (hs : List (Request → Bool)) (now : ℤ) (r s : Request)
    → handled_by hs r ≡ false
    → auth_middleware j e secret hs now r ≡ next s
    → (c : Claims) × (auth : Bytes) × (auth
        ≡ (if same r.authorization [] then r.query_token else r.authorization))
      × (equal_fold (take 7 auth) bearer ≡ true)
      × (parse_token j (drop 7 auth) secret ≡ some c)
      × (still_before c.expires_at now ≡ true)
      × (not_after c.issued_at now ≡ true)
      × (not_after c.not_before now ≡ true)
      × (s ≡ admitted r auth c.entries)
unfolding auth_middleware
auth_middleware_next j e secret hs now r s h n =
    let auth = if same r.authorization [] then r.query_token else r.authorization in
    elim (Bool-cases (leb (length auth) 7 || not (equal_fold (take 7 auth) bearer))) [
      | inl b ↦ ground (arith, h, n, b)
      | inr b ↦
          (let p =
              check_token_next j e secret auth (drop 7 auth) now r s (ground (arith, h, n, b)) in
            let v =
              and_parts (still_before p.0.expires_at now) (not_after p.0.issued_at now)
                (not_after p.0.not_before now) (sym (j.is_valid_lem p.0 now) ∙ p.2) in
            (p.0, auth, refl, ground (arith, b), p.1, v.0, v.1, v.2, p.3))
    ]
