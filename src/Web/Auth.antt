-- ===== src/Web/Auth.antt =====
-- pkg/web/jwt.go: the claims of a token, and the middlewares that check a token and a level.
-- golang-jwt is the record `Jwt`: it signs claims, reads a signed text, and judges the times of the
-- claims. The clock's reading is the argument `now`.
pub mod Pass
pub mod Level
mod Examples
use mathlib.Core.Option
use goddd.Common.Assoc.{lookup, insert}
use goddd.Reason.{set_msg, Error}
use goddd.Common.Int.{◌≤ℤ◌, leb_ℤ, ltb_ℤ, pos, ◌+ℤ◌, ℤ}
use goddd.Common.Text.{bytes_discrete, same, codes, Bytes}
use goddd.Common.{
  ◌^◌, drop, take, ◌+◌, length, ◌&&◌, ◌≡◌, ◌||◌, not, ◌==◌, Bool, leb, ◌∷◌, Option, if◌then◌else◌,
  [], List, some, none, false, true, ℕ,
}

-- A value of type `any`: the numbers, texts, and what the code does not look into. A float is taken
-- by its integral part, which is what `int(v)` leaves of it.
pub data Value : Type 0 where
  int : ℤ → Value
  float64 : ℤ → Value
  text : Bytes → Value
  any_other : Value

-- A Go map from texts.
abbrev pub Values : Type 0
Values = List (Bytes × Value)

pub put : Bytes → Value → Values → Values
put k v m = insert bytes_discrete k v m

abbrev pub key_user_id : Bytes
key_user_id = codes "uid"

abbrev pub key_level : Bytes
key_level = codes "level"

abbrev pub key_role_id : Bytes
key_role_id = codes "role_id"

abbrev pub key_username : Bytes
key_username = codes "username"

abbrev pub key_token_string : Bytes
key_token_string = codes "token"

-- `ClaimsData` and its setters.
pub new_claims_data : Values
new_claims_data = []

pub set_user_id : ℤ → Values → Values
unfolding put
set_user_id uid c = put key_user_id (int uid) c

pub set_level : ℤ → Values → Values
unfolding put
set_level level c = put key_level (int level) c

pub set_role_id : ℤ → Values → Values
unfolding put
set_role_id role_id c = put key_role_id (int role_id) c

pub set_username : Bytes → Values → Values
unfolding put
set_username username c = put key_username (text username) c

pub set : Bytes → Value → Values → Values
unfolding put
set key v c = put key v c

pub record Claims : Type 0 where
  pub entries : Values
  pub expires_at : Option ℤ
  pub issued_at : Option ℤ
  pub not_before : Option ℤ
  pub issuer : Bytes

-- What `encoding/json` reads back of a value: every number is a float.
abbrev pub read_back : Value → Value
read_back (int n) = float64 n
read_back v = v

abbrev pub read_back_all : Values → Values
read_back_all [] = []
read_back_all ((k, v) ∷ m) = (k, read_back v) ∷ read_back_all m

-- A time that is set must not be before, or not be after, the clock.
abbrev pub not_after : Option ℤ → ℤ → Bool
not_after none now = true
not_after (some t) now = leb_ℤ t now

abbrev pub still_before : Option ℤ → ℤ → Bool
still_before none now = true
still_before (some t) now = ltb_ℤ now t

-- What survives a JSON object whole: distinct keys, texts of UTF-8, integers that a float holds. Of a
-- value of another type nothing is said.
abbrev pub IsExactValue : (Bytes → Bool) → Value → Type 0
IsExactValue is_utf8 (int n) = n ≤ℤ pos (2 ^ 53) × (pos 0 ≤ℤ n +ℤ pos (2 ^ 53))
IsExactValue is_utf8 (float64 n) = Unit
IsExactValue is_utf8 (text s) = is_utf8 s ≡ true
IsExactValue is_utf8 any_other = ⊥

abbrev pub IsExact : (Bytes → Bool) → Values → Type 0
IsExact is_utf8 [] = Unit
IsExact is_utf8 ((k, v) ∷ m) =
    (is_utf8 k ≡ true)
    × (lookup bytes_discrete k m ≡ none)
    × IsExactValue is_utf8 v
    × IsExact is_utf8 m

-- Reading what was signed with the same secret gives the claims back, with the values as JSON reads
-- them and the times cut by `numeric_date`, which is to the second and not upwards.
pub record Jwt : Type 0 where
  pub numeric_date : ℤ → ℤ
  pub is_utf8 : Bytes → Bool
  pub signed : Claims → Bytes → Option Bytes
  pub parsed : Bytes → Bytes → Option Claims
  pub is_valid : Claims → ℤ → Bool
  pub parsed-signed :
      (c : Claims) (secret token : Bytes)
      → IsExact is_utf8 c.entries
      → is_utf8 c.issuer ≡ true
      → signed c secret ≡ some token
      → parsed token secret
        ≡ some (record c {
          entries = read_back_all c.entries;
          expires_at = Option.map numeric_date c.expires_at;
          issued_at = Option.map numeric_date c.issued_at;
          not_before = Option.map numeric_date c.not_before;
        })
  pub is_valid_lem :
      (c : Claims) (now : ℤ)
      → is_valid c now
        ≡ (still_before c.expires_at now && not_after c.issued_at now && not_after c.not_before now)
  pub numeric_date_le : (t : ℤ) → numeric_date t ≤ℤ t
  pub numeric_date_idem : (t : ℤ) → numeric_date (numeric_date t) ≡ numeric_date t

abbrev pub six_hours : ℤ
six_hours = pos 21_600_000_000_000

-- The options of `NewToken`.
pub data TokenOption : Type 0 where
  with_expires_at : ℤ → TokenOption
  with_expires : ℤ → TokenOption
  with_issued_at : ℤ → TokenOption
  with_issuer : Bytes → TokenOption
  with_not_before : ℤ → TokenOption

module _ (j : Jwt) where
  pub apply_option : ℤ → TokenOption → Claims → Claims
  apply_option now (with_expires_at t) c = record c { expires_at = some (j.numeric_date t) }
  apply_option now (with_expires d) c = record c { expires_at = some (j.numeric_date (now +ℤ d)) }
  apply_option now (with_issued_at t) c = record c { issued_at = some (j.numeric_date t) }
  apply_option now (with_issuer s) c = record c { issuer = s }
  apply_option now (with_not_before t) c = record c { not_before = some (j.numeric_date t) }

  pub apply_options : ℤ → List TokenOption → Claims → Claims
  unfolding apply_option
  apply_options now [] c = c
  apply_options now (o ∷ os) c = apply_options now os (apply_option now o c)

  -- `none` is the error, of an empty secret or of the signing.
  pub new_token : Values → Bytes → List TokenOption → ℤ → Option Bytes
  unfolding apply_options
  new_token entries [] opts now = none
  new_token entries (s ∷ secret) opts now =
      j.signed
        (apply_options now opts (record {
          entries = entries;
          expires_at = some (j.numeric_date (now +ℤ six_hours));
          issued_at = some (j.numeric_date now);
          not_before = none;
          issuer = codes "xx@golang.space";
        }))
        (s ∷ secret)

  pub parse_token : Bytes → Bytes → Option Claims
  parse_token token secret = j.parsed token secret

-- A request, as the middlewares see it: two places that may hold the token, and the values that are
-- set on its context.
pub record Request : Type 0 where
  pub authorization : Bytes
  pub query_token : Bytes
  pub values : Values

-- What becomes of it: the next handler runs, or the request is aborted with an error.
pub data Outcome : Type 0 where
  next : Request → Outcome
  aborted : Error → Outcome

pub to_lower : ℕ → ℕ
to_lower c = if leb b'A' c && leb c b'Z' then c + 32 else c

-- `strings.EqualFold` with a text of English letters without K and S, which have no other form.
pub equal_fold : Bytes → Bytes → Bool
unfolding to_lower
equal_fold [] [] = true
equal_fold (c ∷ s) (d ∷ t) = to_lower c == to_lower d && equal_fold s t
equal_fold _ _ = false

abbrev pub bearer : Bytes
bearer = codes "Bearer "

-- `for k, v := range claims.Data { c.Set(k, v) }`
pub set_all : Values → Values → Values
unfolding put
set_all [] m = m
set_all ((k, v) ∷ kvs) m = set_all kvs (put k v m)

-- The handlers that may stand in for the check.
pub handled_by : List (Request → Bool) → Request → Bool
handled_by [] r = false
handled_by (h ∷ hs) r = h r || handled_by hs r

module _ (j : Jwt) (err_unauthorized_token : Error) (secret : Bytes) where
  -- The token itself, once it stands behind its prefix.
  pub check_token : Bytes → Bytes → ℤ → Request → Outcome
  unfolding set_all put
  check_token auth token now r = elim (parse_token j token secret) [
    | none ↦ aborted (set_msg "身份验证失败" err_unauthorized_token)
    | some claims ↦
        if not (j.is_valid claims now)
        then aborted (set_msg "请重新登录" err_unauthorized_token)
        else next (record r {
          values = set_all claims.entries (put key_token_string (text auth) r.values);
        })
  ]

  pub auth_middleware : List (Request → Bool) → ℤ → Request → Outcome
  unfolding handled_by equal_fold check_token
  auth_middleware handlers now r =
      if handled_by handlers r
      then next r
      else (let auth = if same r.authorization [] then r.query_token else r.authorization in
          if leb (length auth) 7 || not (equal_fold (take 7 auth) bearer)
          then aborted (set_msg "身份验证失败" err_unauthorized_token)
          else check_token auth (drop 7 auth) now r)

-- `GetInt`, which gives 0 for a value that is missing or no number.
pub number_of : Option Value → ℤ
number_of (some (int n)) = n
number_of (some (float64 n)) = n
number_of _ = pos 0

pub get_int : Values → Bytes → ℤ
unfolding number_of
get_int m key = number_of (lookup bytes_discrete key m)

pub get_uid : Request → ℤ
unfolding get_int
get_uid r = get_int r.values key_user_id

pub get_role_id : Request → ℤ
unfolding get_int
get_role_id r = get_int r.values key_role_id

pub get_level : Request → ℤ
unfolding get_int
get_level r = get_int r.values key_level

-- `GetString`, which gives the empty text for a value that is missing or no text.
pub text_of : Option Value → Bytes
text_of (some (text s)) = s
text_of _ = []

pub get_username : Request → Bytes
unfolding text_of
get_username r = text_of (lookup bytes_discrete key_username r.values)

pub get_token : Request → Bytes
unfolding text_of
get_token r = text_of (lookup bytes_discrete key_token_string r.values)

-- `AuthLevel`
pub auth_level : Error → ℤ → List (Request → Bool) → Request → Outcome
unfolding handled_by get_level
auth_level err_bad_request level ignore_fn r =
    if handled_by ignore_fn r
    then next r
    else (let l = get_level r in
        if ltb_ℤ level l || (leb_ℤ l (pos 0) && leb_ℤ (pos 0) l)
        then aborted (set_msg "权限不足" err_bad_request)
        else next r)
