-- ===== src/Token/Sessions.antt =====
-- domain/token/bz.go: the calls of `Core`, over the cached storage. `crypto/sha256` is the function
-- `sha256`; nothing is assumed of it. The map `data` of `Core` is a map with expiry.
pub mod Laws
use goddd.Common.{ℕ, ◌≡◌, Bool, true, false, not, List, [], ◌∷◌, Option, none, some, if◌then◌else◌}
use goddd.Common.Int.{ℤ, pos, ltb_ℤ}
use goddd.Common.Text.{Bytes, codes, same, bytes_discrete}
use goddd.Conc.Cacher.{Cacher}
use goddd.Conc.SyncMap.{Boxing}
use goddd.Conc.TtlMap
use goddd.Conc.TtlMap.{TtlMap}
use goddd.Token.{Token, Read, found, not_found, failed, Bulk, Which, by_hash, by_id, TokenStorer}
use goddd.Token.Cached
use goddd.Token.Cached.{Cache}

-- The value `struct{}{}`.
pub data Mark : Type 0 where
  mark : Mark

pub no_nil_mark : (m : Mark) → false ≡ true → m ≡ mark
no_nil_mark mark h = cc

unfoldable pub mark_boxing : Boxing Mark
mark_boxing = record { zero_value = mark; is_nil = λ m. false; nil_is_zero = no_nil_mark }

-- What `Valid` returns: nil, ErrUnauthorizedToken with a message, or ErrDB.
pub data Verdict : Type 0 where
  valid_token : Verdict
  unauthorized : Bytes → Verdict
  database_error : Verdict

-- The message that asks for a new login.
abbrev pub log_in_again : Bytes
log_in_again = codes "请重新登录"

abbrev pub ten_minutes : ℤ
ten_minutes = pos 600_000_000_000

-- The judgement of a row.
unfoldable pub judge : Token → ℤ → Verdict
judge t now =
    if ltb_ℤ t.expired_at now
    then if not (same t.reason []) then unauthorized t.reason else unauthorized log_in_again
    else valid_token

module _ (st : TokenStorer) (ca : Cacher Token Token) (sha256 : Bytes → Bytes) where
  pub record Core : Type 0 where
    pub store : Cache st ca
    pub data_map : TtlMap Bytes Mark

  pub new_core : Cache st ca → Core
  new_core store = record { store = store; data_map = TtlMap.new_ttl_map }

  unfoldable pub valid : Bytes → ℤ → Core → Core × Verdict
  unfolding judge
  valid token now c =
      let (s, r) = Cached.get st ca (sha256 token) now c.store in
      (
        record c { store = s },
        elim r [
          | found t ↦ judge t now
          | not_found ↦ unauthorized log_in_again
          | failed ↦ database_error
        ],
      )

  pub delay_token_now : Bytes → ℤ → ℤ → Core → Core × Bool
  delay_token_now token expire now c =
      let (s, done) =
        Cached.update st ca (by_hash (sha256 token)) (λ t. record t { expired_at = expire }) now
          c.store in
      (record c { store = s }, done)

  pub delay_token : Bytes → ℤ → ℤ → Core → Core × Bool
  unfolding delay_token_now mark_boxing
  delay_token token expire now c =
      let (m, (_, exist)) =
        TtlMap.load_or_store bytes_discrete mark_boxing token mark ten_minutes now c.data_map in
      if exist
      then (record c { data_map = m }, true)
      else delay_token_now token expire now (record c { data_map = m })

  -- `DeleteExpired`, `DeleteAllForUser` and `Expire`.
  pub bulk : Bulk → Core → Core × Option (List Bytes)
  bulk b c = let (s, keys) = Cached.bulk st ca b c.store in (record c { store = s }, keys)

  pub delete_token : ℕ → Core → Core × Bool
  delete_token id c =
      let (s, done) = Cached.delete st ca id c.store in (record c { store = s }, done)
