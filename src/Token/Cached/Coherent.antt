-- ===== src/Token/Cached/Coherent.antt =====
-- The cache never holds what the table does not.
use mathlib.Core.Path.{subst}
use mathlib.Core.HLevel.{⊥_prop}
use mathlib.Core.Logic.Or
use mathlib.Core.List.{Mem, mem-cons, not-mem-nil}
use goddd.Common.{
  ℕ, ◌≡◌, ◌≢◌, ◌⊎◌, refl, sym, ap, ◌∙◌, Bool-cases, Option-cases, inl, inr, List, [], ◌∷◌, Option,
  none, some, arith,
}
use goddd.Common.Int.{ℤ, ◌≤ℤ◌}
use goddd.Common.Text.{Bytes, hex, hex_injective, same}
use goddd.Conc.Cacher.{Cacher}
use goddd.Token.{Token, cache_key, Read, found, not_found, failed, Bulk, Which, TokenStorer}
use goddd.Token.Cached.{Cache, full_key, del_keys, from_store, get, create, update, delete, bulk}

pub Read-cases : (r : Read) → ((t : Token) × (r ≡ found t)) ⊎ ((r ≡ not_found) ⊎ (r ≡ failed))
Read-cases (found t) = inl (t, refl)
Read-cases not_found = inr (inl refl)
Read-cases failed = inr (inr refl)

full_key_injective : (h j : Bytes) → full_key (hex h) ≡ full_key (hex j) → h ≡ j
unfolding full_key
full_key_injective h j e = hex_injective h j (ground (arith, e))

module _ (st : TokenStorer) (ca : Cacher Token Token) where
  -- From a time on, what the cache holds under a hash is the row with this hash.
  pub IsCoherent : ℤ → Cache st ca → Type 0
  IsCoherent now s =
      (later : ℤ) (j : Bytes) (t : Token)
      → now ≤ℤ later
      → ca.cached later s.token (full_key (hex j)) ≡ some t
      → st.row s.store j ≡ some t

  del_keys_lem :
      (keys : List Bytes) (later : ℤ) (j : Bytes) (t : Token) (c : ca.Cache)
      → ca.cached later (del_keys st ca keys c) (full_key (hex j)) ≡ some t
      → (¬ Mem (hex j) keys) × (ca.cached later c (full_key (hex j)) ≡ some t)
  unfolding del_keys
  del_keys_lem [] later j t c h = (not-mem-nil, h)
  del_keys_lem (key ∷ keys) later j t c h =
      let (others, before) = del_keys_lem keys later j t (ca.del (full_key key) c) h in
      let (not_key, held) = ca.del_cached (full_key key) (full_key (hex j)) t later c before in
      (λ m. Or.elim ⊥_prop (mem-cons.0 m) (λ e. not_key (ap full_key (sym e))) others, held)

  from_store-IsCoherent :
      (h : Bytes) (now : ℤ) (s : Cache st ca)
      → IsCoherent now s
      → IsCoherent now (from_store st ca h now s).0
  unfolding from_store IsCoherent cache_key
  from_store-IsCoherent h now s co = elim (Read-cases (st.get h s.store)) [
    | inl (t, e) ↦
        rw (e, from_store)
          (λ later j u le held.
            elim (ca.set_nx_cached (full_key (hex t.hash)) (full_key (hex j)) t u now later s.token
              le held) [
                | inr there ↦ co later j u le there
                | inl (same_key, same_token) ↦
                    let at_h = st.get_found h s.store t e in
                    let j_is : t.hash ≡ j = full_key_injective t.hash j same_key in
                    let h_is : t.hash ≡ h = st.row_hash s.store h t at_h in
                    rw same_token
                      (subst (λ (k : Bytes). st.row s.store k ≡ some t) (sym h_is ∙ j_is) at_h)
              ])
    | inr (inl e) ↦ rw (e, from_store) co
    | inr (inr e) ↦ rw (e, from_store) co
  ]

  pub get-IsCoherent :
      (h : Bytes) (now : ℤ) (s : Cache st ca)
      → IsCoherent now s
      → IsCoherent now (get st ca h now s).0
  unfolding get IsCoherent
  get-IsCoherent h now s co = elim (Bool-cases (same (hex h) [])) [
    | inl e ↦ rw e (from_store-IsCoherent h now s co)
    | inr e ↦
        let used = (ca.get (full_key (hex h)) now s.token).0 in
        let kept : IsCoherent now (record s { token = used }) = λ later j t le held.
          co later j t le
            (ca.get_keeps (full_key (hex h)) (full_key (hex j)) t now later s.token le held) in
        elim (Option-cases (ca.get (full_key (hex h)) now s.token).1) [
          | inr (t, hit) ↦ rw e (rw hit kept)
          | inl missed ↦
              rw e (rw missed (from_store-IsCoherent h now (record s { token = used }) kept))
        ]
  ]

  pub bulk-IsCoherent :
      (b : Bulk) (now : ℤ) (s : Cache st ca) → IsCoherent now s → IsCoherent now (bulk st ca b s).0
  unfolding bulk IsCoherent
  bulk-IsCoherent b now s co = elim (Option-cases (st.bulk b s.store).1) [
    | inl e ↦
        rw (e, bulk)
          (λ later j t le held.
            ap (λ d. st.row d j)
              (st.bulk_fails b s.store (st.bulk b s.store).0
                (ap (λ o. ((st.bulk b s.store).0, o)) e))
            ∙ co later j t le held)
    | inr (keys, e) ↦
        rw (e, bulk)
          (λ later j t le held.
            let (others, before) = del_keys_lem keys later j t s.token held in
            st.bulk_row b keys j s.store (st.bulk b s.store).0
              (ap (λ o. ((st.bulk b s.store).0, o)) e) others
            ∙ co later j t le before)
  ]

  -- What `Set` and `Del` leave, when one row has changed.
  set-IsCoherent :
      (now : ℤ) (s : Cache st ca) (d' : st.Db) (m : Token)
      → IsCoherent now s
      → st.row d' m.hash ≡ some m
      → ((j : Bytes) → j ≢ m.hash → st.row d' j ≡ st.row s.store j)
      → IsCoherent now (record { store = d'; token = ca.set (full_key (hex m.hash)) m now s.token })
  unfolding IsCoherent
  set-IsCoherent now s d' m co here others later j u le held =
      elim (ca.set_cached (full_key (hex m.hash)) (full_key (hex j)) m u now later s.token held) [
        | inl (same_key, same_token) ↦ rw same_token (
            subst (λ (k : Bytes). st.row d' k ≡ some m) (full_key_injective m.hash j same_key) here)
        | inr (other, there) ↦
            others j (λ e. other (ap (λ (k : Bytes). full_key (hex k)) (sym e)))
            ∙ co later j u le there
      ]

  pub create-IsCoherent :
      (t : Token) (now : ℤ) (s : Cache st ca)
      → st.row s.store t.hash ≡ none
      → IsCoherent now s
      → IsCoherent now (create st ca t now s).0
  unfolding create IsCoherent cache_key
  create-IsCoherent t now s fresh co =
      let d' = (st.create t s.store).0 in
      elim (Option-cases (st.create t s.store).1) [
        | inl e ↦
            rw (e, create)
              (λ later j u le held.
                ap (λ d. st.row d j) (st.create_fails t s.store d' (ap (λ o. (d', o)) e))
                ∙ co later j u le held)
        | inr (m, e) ↦
            let made = ap (λ o. (d', o)) e in
            rw (e, create)
              (set-IsCoherent now s d' m co (st.create_row t m m.hash s.store d' fresh made).1
                (λ j. (st.create_row t m j s.store d' fresh made).2))
      ]

  pub update-IsCoherent :
      (w : Which) (f : Token → Token) (now : ℤ) (s : Cache st ca)
      → ((t : Token) → (f t).hash ≡ t.hash)
      → IsCoherent now s
      → IsCoherent now (update st ca w f now s).0
  unfolding update IsCoherent cache_key
  update-IsCoherent w f now s keeps co =
      let d' = (st.update w f s.store).0 in
      elim (Option-cases (st.update w f s.store).1) [
        | inl e ↦
            rw (e, update)
              (λ later j u le held.
                ap (λ d. st.row d j) (st.update_fails w f s.store d' (ap (λ o. (d', o)) e))
                ∙ co later j u le held)
        | inr (m, e) ↦
            let made = ap (λ o. (d', o)) e in
            rw (e, update)
              (set-IsCoherent now s d' m co (st.update_row w f m m.hash s.store d' keeps made).4
                (λ j. (st.update_row w f m j s.store d' keeps made).5))
      ]

  pub delete-IsCoherent :
      (id : ℕ) (now : ℤ) (s : Cache st ca) → IsCoherent now s → IsCoherent now (delete st ca id s).0
  unfolding delete IsCoherent cache_key
  delete-IsCoherent id now s co =
      let d' = (st.delete id s.store).0 in
      elim (Option-cases (st.delete id s.store).1) [
        | inl e ↦
            rw (e, delete)
              (λ later j u le held.
                ap (λ d. st.row d j) (st.delete_fails id s.store d' (ap (λ o. (d', o)) e))
                ∙ co later j u le held)
        | inr (m, e) ↦
            rw (e, delete)
              (λ later j u le held.
                let (other, there) =
                  ca.del_cached (full_key (hex m.hash)) (full_key (hex j)) u later s.token held in
                (st.delete_row id m j s.store d' (ap (λ o. (d', o)) e)).1
                  (λ p. other (ap (λ (k : Bytes). full_key (hex k)) (sym p)))
                ∙ co later j u le there)
      ]

  -- A coherent cache stays so with time.
  pub IsCoherent-later :
      (now later : ℤ) (s : Cache st ca) → now ≤ℤ later → IsCoherent now s → IsCoherent later s
  unfolding IsCoherent
  IsCoherent-later now later s le co last j t h held = co last j t (omega (arith, le, h)) held

  from_store-found :
      (h : Bytes) (now : ℤ) (s : Cache st ca) (u : Token)
      → (from_store st ca h now s).1 ≡ found u
      → st.row s.store h ≡ some u
  unfolding from_store
  from_store-found h now s u e = st.get_found h s.store u (ground (arith, e))

  -- What is found through a coherent cache is the row, or the row as the cache converts it.
  pub get-row :
      (h : Bytes) (now : ℤ) (s : Cache st ca) (u : Token)
      → IsCoherent now s
      → (get st ca h now s).1 ≡ found u
      → (t : Token) × (st.row s.store h ≡ some t) × ((u ≡ t) ⊎ (ca.converted t ≡ some u))
  unfolding get from_store IsCoherent
  get-row h now s u co e = elim (Bool-cases (same (hex h) [])) [
    | inl empty ↦ (u, from_store-found h now s u (rw empty at e), inl refl)
    | inr some_hash ↦
        let (c, hit) = ca.get (full_key (hex h)) now s.token in
        let asked : (ca.get (full_key (hex h)) now s.token).1 ≡ _ =
          ca.get_cached (full_key (hex h)) now s.token in
        elim (Option-cases (ca.get (full_key (hex h)) now s.token).1) [
          | inl missed ↦ (
            u,
            from_store-found h now (record s { token = c }) u
                (ground (arith, e, some_hash, missed)),
            inl refl,
          )
          | inr (v, found_v) ↦ elim (Option-cases (ca.cached now s.token (full_key (hex h)))) [
            | inl nothing ↦ absurd (ground (arith, asked, found_v, nothing))
            | inr (t, held) ↦ (
              t,
              co now h t (omega arith) held,
              inr (ground (arith, asked, found_v, held, e, some_hash)),
            )
          ]
        ]
  ]

  -- Deleting a row through the cache leaves the table that the storage returns.
  pub store-delete :
      (id : ℕ) (s : Cache st ca) (d' : st.Db) (o : Option Token)
      → st.delete id s.store ≡ (d', o)
      → (delete st ca id s).0.store ≡ d'
  unfolding delete
  store-delete id s d' o e = elim (Option-cases (st.delete id s.store).1) [
    | inl p ↦ rw (p, delete) (ap (λ r. r.0) e)
    | inr (m, p) ↦ rw (p, delete) (ap (λ r. r.0) e)
  ]

  -- A cache that holds nothing is coherent.
  pub empty-IsCoherent :
      (now : ℤ) (s : Cache st ca)
      → ((later : ℤ) (k : Bytes) → ca.cached later s.token k ≡ none)
      → IsCoherent now s
  unfolding IsCoherent
  empty-IsCoherent now s empty later j t le held =
      ground (arith, held, empty later (full_key (hex j)))
