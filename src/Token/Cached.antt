-- ===== src/Token/Cached.antt =====
-- domain/token/store/tokencache: the storage with a cache in front, under keys that are made of the
-- written hashes.
-- The source stores a pointer to the model that it was given; its callers do not write to the model
-- after that, so the value at the time of the call is stored here.
pub mod Coherent
pub mod Runs
use goddd.Common.{ℕ, ◌≡◌, Bool, true, false, List, [], ◌∷◌, ◌++◌, Option, none, some, if◌then◌else◌}
use goddd.Common.Int.{ℤ}
use goddd.Common.Text.{Bytes, codes, hex, same}
use goddd.Conc.Cacher.{Cacher}
use goddd.Token.{Token, cache_key, Read, found, not_found, failed, Bulk, Which, TokenStorer}

-- `fmt.Sprintf("TOKEN:%v", key)`
unfoldable pub full_key : Bytes → Bytes
full_key key = codes "TOKEN:" ++ key

module _ (st : TokenStorer) (ca : Cacher Token Token) where
  pub record Cache : Type 0 where
    pub store : st.Db
    pub token : ca.Cache

  unfoldable pub del_keys : List Bytes → ca.Cache → ca.Cache
  del_keys [] c = c
  del_keys (key ∷ keys) c = del_keys keys (ca.del (full_key key) c)

  -- The storage, with what it has found put into the cache.
  unfoldable pub from_store : Bytes → ℤ → Cache → Cache × Read
  unfolding cache_key
  from_store h now s = elim (st.get h s.store) [
    | found t ↦ (record s { token = ca.set_nx (full_key (cache_key t)) t now s.token }, found t)
    | not_found ↦ (s, not_found)
    | failed ↦ (s, failed)
  ]

  -- `Get` with a hash in the model: the cache first, and the storage if the cache has nothing.
  unfoldable pub get : Bytes → ℤ → Cache → Cache × Read
  unfolding from_store
  get h now s =
      if same (hex h) []
      then from_store h now s
      else (let (c, hit) = ca.get (full_key (hex h)) now s.token in
          elim hit [
            | some t ↦ (record s { token = c }, found t)
            | none ↦ from_store h now (record s { token = c })
          ])

  pub create : Token → ℤ → Cache → Cache × Bool
  unfolding cache_key
  create t now s =
      let (d, done) = st.create t s.store in
      elim done [
        | none ↦ (record s { store = d }, false)
        | some m ↦
            (record { store = d; token = ca.set (full_key (cache_key m)) m now s.token }, true)
      ]

  pub update : Which → (Token → Token) → ℤ → Cache → Cache × Bool
  unfolding cache_key
  update w change now s =
      let (d, done) = st.update w change s.store in
      elim done [
        | none ↦ (record s { store = d }, false)
        | some m ↦
            (record { store = d; token = ca.set (full_key (cache_key m)) m now s.token }, true)
      ]

  pub delete : ℕ → Cache → Cache × Bool
  unfolding cache_key
  delete id s =
      let (d, done) = st.delete id s.store in
      elim done [
        | none ↦ (record s { store = d }, false)
        | some m ↦ (record { store = d; token = ca.del (full_key (cache_key m)) s.token }, true)
      ]

  -- `Expire`, `DeleteAllForUser` and `DeleteExpired`, which differ in the call of the storage.
  pub bulk : Bulk → Cache → Cache × Option (List Bytes)
  bulk b s =
      let (d, done) = st.bulk b s.store in
      elim done [
        | none ↦ (record s { store = d }, none)
        | some keys ↦ (record { store = d; token = del_keys keys s.token }, some keys)
      ]
