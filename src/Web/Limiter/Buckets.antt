-- ===== src/Web/Limiter/Buckets.antt =====
-- `IDRateLimiter` and `IPRateLimiterForGin` of pkg/web/limiter.go: a bucket for each identifier, kept
-- in a map with expiry. The map holds pointers to buckets; the buckets are on a heap, and a pointer is
-- an index there, or none for nil.
pub mod Shared
mod Examples
use goddd.Reason.{Error}
use goddd.Conc.SyncMap.{Boxing}
use goddd.Conc.TtlMap.{TtlMap, load, load_or_store}
use goddd.Common.Text.{bytes_discrete, Bytes}
use goddd.Common.Int.{negsuc, pos, ℤ}
use goddd.Web.Limiter.{next, unless_ignored, Outcome, Error, Bucket}
use mathlib.Core.Option
use goddd.Common.{
  ◌==◌, [], ◌++◌, not, if◌then◌else◌, length, set, get_elem?, ◌≡◌, List, Bool, Option, ◌∷◌, some,
  none, false, true, ℕ,
}

abbrev pub Pointer : Type 0
Pointer = Option ℕ

pub never_nil : (p : Pointer) → false ≡ true → p ≡ none
never_nil p h = cc

-- A nil pointer in an `any` is no nil `any`.
abbrev pub pointers : Boxing Pointer
pointers = record { zero_value = none; is_nil = λ p. false; nil_is_zero = never_nil }

pub record Buckets (Limiter : Type 0) : Type 0 where
  pub cache : TtlMap Bytes Pointer
  pub heap : List Limiter

abbrev pub three_minutes : ℤ
three_minutes = pos 180_000_000_000

pub default_ttl : ℤ → ℤ
default_ttl (pos n) = if n == 0 then three_minutes else pos n
default_ttl (negsuc n) = negsuc n

module _ (b : Bucket) (new_limiter : b.Limiter) where
  -- `v.Allow()`, where `none` is the panic on a nil pointer.
  pub allow_at : Pointer → Buckets b.Limiter → Option (Buckets b.Limiter × Bool)
  allow_at none s = none
  allow_at (some p) s = elim (get_elem? s.heap p) [
    | none ↦ none
    | some l ↦ some (record s { heap = set s.heap p (b.allow l).0 }, (b.allow l).1)
  ]

  -- A new bucket is made and offered to the map, which may have one.
  pub make_bucket : Bytes → ℤ → ℤ → Buckets b.Limiter → Option (Buckets b.Limiter × Bool)
  unfolding allow_at
  make_bucket identifier ttl now s =
      let (cache', (p, _)) =
        load_or_store bytes_discrete pointers identifier (some (length s.heap)) ttl now s.cache in
      allow_at p (record { cache = cache'; heap = s.heap ++ (new_limiter ∷ []) })

  -- The function that `IDRateLimiter` returns.
  pub id_rate_limiter : Bytes → ℤ → ℤ → Buckets b.Limiter → Option (Buckets b.Limiter × Bool)
  unfolding make_bucket
  id_rate_limiter identifier ttl now s =
      let (cache', (p, ok)) = load bytes_discrete pointers identifier now s.cache in
      if ok
      then allow_at p (record s { cache = cache' })
      else make_bucket identifier (default_ttl ttl) now (record s { cache = cache' })

  -- `IPRateLimiterForGin`, for a request from `ip`.
  pub ip_rate_limiter :
      {Request : Type 0}
      → List (Request → Bool)
      → Error
      → Bytes
      → Request
      → ℤ
      → Buckets b.Limiter
      → Option (Buckets b.Limiter × Outcome)
  unfolding id_rate_limiter
  ip_rate_limiter ignore_fn err ip r now s =
      Option.map (λ done. (done.0, if not done.1 then unless_ignored ignore_fn err r else next))
        (id_rate_limiter ip three_minutes now s)
