-- ===== src/Token/Sessions/Laws.antt =====
-- Which sessions are valid, and which calls end or prolong them.
use mathlib.Core.Path.{subst}
use goddd.Common.{ℕ, ◌≡◌, ◌≢◌, ◌⊎◌, sym, ap, ◌∙◌, true, false, inl, inr, none, some, arith}
use goddd.Common.Int.{ℤ, ltb_ℤ, ◌≤ℤ◌}
use goddd.Common.Text.{Bytes, bytes_discrete}
use goddd.Conc.Cacher.{Cacher}
use goddd.Conc.TtlMap.Live.{value_at, value_at-load_or_store, load_or_store_lem}
use goddd.Token.{Token, TokenStorer}
use goddd.Token.Cached
use goddd.Token.Cached.{Cache}
use goddd.Token.Cached.Coherent.{
  store-delete, Read-cases, IsCoherent, IsCoherent-later, get-row, delete-IsCoherent,
}
use goddd.Token.Sessions.{
  Core, valid, judge, valid_token, delay_token, delete_token, mark_boxing, mark, ten_minutes, Mark,
}

some≢none : {A : Type 0} {a : A} → some a ≡ none → ⊥
some≢none h = cc

judge-valid : (t : Token) (now : ℤ) → judge t now ≡ valid_token → ltb_ℤ t.expired_at now ≡ false
unfolding judge
judge-valid t now h = ground arith

module _ (st : TokenStorer) (ca : Cacher Token Token) (sha256 : Bytes → Bytes) where
  -- If the cache is coherent with the table (from now on, what it holds under a hash is the row with this
  -- hash), a token that is found valid is a row of the table whose time
  -- is not over. If the cache answered, the time is that of the row as the cache converts it.
  pub valid_sound :
      (token : Bytes) (now : ℤ) (c : Core st ca sha256)
      → IsCoherent st ca now c.store
      → (valid st ca sha256 token now c).1 ≡ valid_token
      → (t u : Token) × (st.row c.store.store (sha256 token) ≡ some t)
        × ((u ≡ t) ⊎ (ca.converted t ≡ some u))
        × (ltb_ℤ u.expired_at now ≡ false)
  unfolding valid
  valid_sound token now c co h =
      let (_, r) = Cached.get st ca (sha256 token) now c.store in
      elim (Read-cases (Cached.get st ca (sha256 token) now c.store).1) [
        | inl (u, e) ↦
            let (t, at_hash, same_time) = get-row st ca (sha256 token) now c.store u co e in
            (t, u, at_hash, same_time, judge-valid u now (ground (arith, h, e)))
        | inr (inl e) ↦ absurd (ground (arith, h, e))
        | inr (inr e) ↦ absurd (ground (arith, h, e))
      ]

  -- If the cache is coherent with the table (from now on, what it holds under a hash is the row with this
  -- hash)
  -- and the deletion of a row succeeds, then `Valid` of the token of that row does not find it
  -- valid when it is called next, at the time of the deletion or at any later one.
  pub valid_after_delete :
      (token : Bytes) (id : ℕ) (now later : ℤ) (c : Core st ca sha256) (d' : st.Db) (m : Token)
      → IsCoherent st ca now c.store
      → now ≤ℤ later
      → st.delete id c.store.store ≡ (d', some m)
      → m.hash ≡ sha256 token
      → (valid st ca sha256 token later (delete_token st ca sha256 id c).0).1 ≢ valid_token
  unfolding delete_token
  valid_after_delete token id now later c d' m co le gone its h =
      let after : Core st ca sha256 = (delete_token st ca sha256 id c).0 in
      let (t, u, there, _, _) =
        valid_sound token later after
          (IsCoherent-later st ca now later _ le (delete-IsCoherent st ca id now c.store co)) h in
      let at_end : st.row d' (sha256 token) ≡ some t =
        subst (λ (d : st.Db). st.row d (sha256 token) ≡ some t)
          (store-delete st ca id c.store d' (some m) gone) there in
      let absent = (st.delete_row id m m.hash c.store.store d' gone).0 in
      some≢none (sym at_end ∙ ap (λ (k : Bytes). st.row d' k) (sym its) ∙ absent)

  -- `DelayToken` of a token that is marked leaves the storage as it is and the token marked, at any
  -- time.
  pub delay_token_marked :
      (token : Bytes) (expire now : ℤ) (c : Core st ca sha256) (v : Mark)
      → value_at bytes_discrete mark_boxing c.data_map token ≡ some v
      → ((delay_token st ca sha256 token expire now c).1 ≡ true)
        × ((delay_token st ca sha256 token expire now c).0.store ≡ c.store)
        × (value_at bytes_discrete mark_boxing
              (delay_token st ca sha256 token expire now c).0.data_map
              token
            ≡ some v)
  unfolding delay_token
  delay_token_marked token expire now c v h =
      let answer =
        (load_or_store_lem bytes_discrete mark_boxing token mark ten_minutes now c.data_map).0 in
      let kept =
        value_at-load_or_store bytes_discrete mark_boxing token mark v ten_minutes now c.data_map
          h in
      (ground (arith, answer, h), ground (arith, answer, h), ground (arith, answer, h, kept))
