-- ===== src/Web/Limiter/Buckets/Examples.antt =====
-- Buckets that hold a number of events, for two identifiers.
use mathlib.Core.Option.{some-injective}
use goddd.Web.Limiter.Buckets.Shared.{id_rate_limiter_lem, TakesNew, TakesOld}
use goddd.Common.Int.{ℤ, pos}
use goddd.Common.Text.{same, codes, bytes_discrete}
use goddd.Web.Limiter.Buckets.{Pointer, pos, pointers, Buckets}
use goddd.Web.Limiter.{Bucket}
use goddd.Conc.TtlMap.{after, new_ttl_map}
use goddd.Conc.TtlMap.Live.{live-store, live}
use goddd.Conc.TtlMap.Synced.{step, call_store, Call, run, run-IsSynced}
use goddd.Common.{
  ◌∙◌, sym, arith, ◌⊎◌, List, ◌∷◌, refl, get_elem?, ◌≡◌, zero, [], suc, Bool, some, false, true, ℕ,
}

take_one : ℕ → ℕ × Bool
take_one zero = (0, false)
take_one (suc n) = (n, true)

abbrev counting : Bucket
counting = record { Limiter = ℕ; allow = take_one }

-- Identifier "a" has a bucket with one event, until time 10.
abbrev calls : List (ℤ × Call bytes_discrete pointers)
calls = (pos 0, call_store (codes "a") (some 0) (pos 10)) ∷ []

abbrev one_bucket : Buckets ℕ
one_bucket = record { cache = run bytes_discrete pointers calls new_ttl_map; heap = 1 ∷ [] }

first_bucket : live bytes_discrete pointers (pos 7) one_bucket.cache (codes "a") ≡ some (some 0)
unfolding run step bytes_discrete same after
first_bucket =
    live-store bytes_discrete pointers (codes "a") (codes "a") (some 0) (pos 10) (pos 0) (pos 7)
      new_ttl_map

has_bucket :
    (p : Pointer)
    → live bytes_discrete pointers (pos 7) one_bucket.cache (codes "a") ≡ some p
    → (q l : ℕ) × (p ≡ some q) × (get_elem? one_bucket.heap q ≡ some l)
has_bucket p h = (0, 1, sym (some-injective (some 0) p (sym first_bucket ∙ h)), refl)

id_rate_limiter_lem_example :
    TakesOld counting 5 (codes "a") (pos 0) (pos 7) one_bucket (pos 8) (codes "b")
    ⊎ TakesNew counting 5 (codes "a") (pos 0) (pos 7) one_bucket (pos 8) (codes "b")
id_rate_limiter_lem_example =
    id_rate_limiter_lem counting 5 (codes "a") (pos 0) (pos 7) one_bucket (pos 8) (codes "b")
      (run-IsSynced bytes_discrete pointers calls) has_bucket (ground arith)
