-- ===== src/Web/Limiter.antt =====
-- pkg/web/limiter.go: `RateLimiter` and `LimitContentLength`, which let a request pass or refuse it.
-- A request is of any type `Request`; the ignore options are tests on it, asked in their order. The
-- token bucket of golang.org/x/time/rate is the record `Bucket`: its state, and `Allow`, which uses
-- the state up and says whether the event may happen.
pub mod Buckets
mod Examples
use goddd.Common.{
  ℕ, ◌≡◌, ◌↔◌, ◌⊎◌, inl, inr, refl, Bool, true, false, not, ◌||◌, Bool-cases, List, [], ◌∷◌, arith,
  if◌then◌else◌,
}
use goddd.Common.Int.{ℤ, ltb_ℤ}
use goddd.Reason.{Error, set_msg}

pub record Bucket : Type 1 where
  pub Limiter : Type 0
  pub allow : Limiter → Limiter × Bool

-- What becomes of a request: the next handler runs, or the answer is an error.
pub data Outcome : Type 0 where
  next : Outcome
  aborted : Error → Outcome

module _ {Request : Type 0} where
  -- The loop over the ignore options, and the refusal behind it.
  pub unless_ignored : List (Request → Bool) → Error → Request → Outcome
  unless_ignored [] e r = aborted e
  unless_ignored (fn ∷ fns) e r = let rest = unless_ignored fns e r in if fn r then next else rest

  module _ (b : Bucket) (err_rate_limit : Error) where
    -- The bucket is asked for each request, also for one that is let through by an option.
    pub rate_limiter : List (Request → Bool) → Request → b.Limiter → b.Limiter × Outcome
    unfolding unless_ignored
    rate_limiter ignore_fn r l =
        let (l', allowed) = b.allow l in
        (
          l',
          if not allowed then unless_ignored ignore_fn (set_msg "服务器繁忙" err_rate_limit) r else next,
        )

  pub limit_content_length : (Request → ℤ) → Error → ℤ → List (Request → Bool) → Request → Outcome
  unfolding unless_ignored
  limit_content_length content_length err limit ignore_fn r =
      if ltb_ℤ limit (content_length r) then unless_ignored ignore_fn err r else next

  -- Some option lets the request through.
  unfoldable pub is_ignored : List (Request → Bool) → Request → Bool
  is_ignored [] r = false
  is_ignored (fn ∷ fns) r = fn r || is_ignored fns r

  unless_ignored_lem :
      (fns : List (Request → Bool)) (e : Error) (r : Request)
      → unless_ignored fns e r ≡ (if is_ignored fns r then next else aborted e)
  unfolding unless_ignored is_ignored
  unless_ignored_lem [] e r = refl
  unless_ignored_lem (fn ∷ fns) e r = elim (Bool-cases (fn r)) [
    | inl p ↦ rw (p, unless_ignored, is_ignored) refl
    | inr p ↦ rw (p, unless_ignored, is_ignored) (unless_ignored_lem fns e r)
  ]

  -- A request passes `LimitContentLength` exactly if its length is within the limit or an option lets
  -- it through, and it passes `RateLimiter` exactly if the bucket allows it or an option lets it
  -- through; the bucket is asked once for each request, whatever the options say. A request that does
  -- not pass gets the error of the limit.
  pub rate_limiter-limit_content_length :
      (b : Bucket) (err too_large : Error) (content_length : Request → ℤ) (limit : ℤ)
      (fns : List (Request → Bool)) (r : Request) (l : b.Limiter)
      → (rate_limiter b err fns r l ≡ (
        (b.allow l).0,
        if (b.allow l).1 || is_ignored fns r then next else aborted (set_msg "服务器繁忙" err),
      ))
        × (limit_content_length content_length too_large limit fns r ≡ (
            if not (ltb_ℤ limit (content_length r)) || is_ignored fns r
            then next
            else aborted too_large))
  unfolding rate_limiter limit_content_length
  rate_limiter-limit_content_length b err too_large content_length limit fns r l = (
    elim (Bool-cases (b.allow l).1) [
      | inl p ↦ rw (p, rate_limiter) refl
      | inr p ↦ rw (p, rate_limiter) (rw (unless_ignored_lem fns (set_msg "服务器繁忙" err) r) refl)
    ],
    ground (arith, unless_ignored_lem fns too_large r),
  )
