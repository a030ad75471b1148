-- ===== src/Token/Cached/Runs.antt =====
-- Any calls of the cached storage, one after the other, keep the cache coherent.
use goddd.Common.{ℕ, ◌≡◌, List, [], ◌∷◌, none}
use goddd.Common.Int.{ℤ, ◌≤ℤ◌}
use goddd.Common.Text.{Bytes}
use goddd.Conc.Cacher.{Cacher}
use goddd.Token.{Token, Bulk, Which, TokenStorer}
use goddd.Token.Cached.{Cache, get, create, update, delete, bulk}
use goddd.Token.Cached.Coherent.{
  IsCoherent, IsCoherent-later, get-IsCoherent, create-IsCoherent, update-IsCoherent,
  delete-IsCoherent, bulk-IsCoherent,
}

pub data Op : Type 0 where
  op_get : Bytes → Op
  op_create : Token → Op
  op_update : Which → (Token → Token) → Op
  op_delete : ℕ → Op
  op_bulk : Bulk → Op

module _ (st : TokenStorer) (ca : Cacher Token Token) where
  pub step : Op → ℤ → Cache st ca → Cache st ca
  step (op_get h) now s = (get st ca h now s).0
  step (op_create t) now s = (create st ca t now s).0
  step (op_update w f) now s = (update st ca w f now s).0
  step (op_delete id) now s = (delete st ca id s).0
  step (op_bulk b) now s = (bulk st ca b s).0

  pub run : List (ℤ × Op) → Cache st ca → Cache st ca
  unfolding step
  run [] s = s
  run ((now, op) ∷ ops) s = run ops (step op now s)

  -- A new token has a hash that the table does not have, and a change keeps the hash.
  abbrev pub IsPermitted : Op → Cache st ca → Type 0
  IsPermitted (op_create t) s = st.row s.store t.hash ≡ none
  IsPermitted (op_update w f) s = (t : Token) → (f t).hash ≡ t.hash
  IsPermitted _ s = Unit

  -- The calls are permitted where they are made, at times that do not go back.
  abbrev pub IsRun : ℤ → List (ℤ × Op) → Cache st ca → Type 0
  IsRun last [] s = Unit
  IsRun last ((now, op) ∷ ops) s = (last ≤ℤ now) × IsPermitted op s × IsRun now ops (step op now s)

  abbrev pub end_of : ℤ → List (ℤ × Op) → ℤ
  end_of last [] = last
  end_of last ((now, op) ∷ ops) = end_of now ops

  step-IsCoherent :
      (op : Op) (now : ℤ) (s : Cache st ca)
      → IsPermitted op s
      → IsCoherent st ca now s
      → IsCoherent st ca now (step op now s)
  unfolding step
  step-IsCoherent (op_get h) now s p co = get-IsCoherent st ca h now s co
  step-IsCoherent (op_create t) now s p co = create-IsCoherent st ca t now s p co
  step-IsCoherent (op_update w f) now s p co = update-IsCoherent st ca w f now s p co
  step-IsCoherent (op_delete id) now s p co = delete-IsCoherent st ca id now s co
  step-IsCoherent (op_bulk b) now s p co = bulk-IsCoherent st ca b now s co

  -- After any calls of `Get`, `Create`, `Update`, `Delete`, `Expire`, `DeleteAllForUser` and
  -- `DeleteExpired`, at times that do not go back, what the cache holds under a hash is the row that
  -- the table has, if it was so before. The hashes of created tokens are new, and updates keep the
  -- hash.
  pub run-IsCoherent :
      (ops : List (ℤ × Op)) (last : ℤ) (s : Cache st ca)
      → IsRun last ops s
      → IsCoherent st ca last s
      → IsCoherent st ca (end_of last ops) (run ops s)
  unfolding run
  run-IsCoherent [] last s p co = co
  run-IsCoherent ((now, op) ∷ ops) last s (le, permitted, rest) co =
      run-IsCoherent ops now (step op now s) rest
        (step-IsCoherent op now s permitted (IsCoherent-later st ca last now s le co))
