-- ===== src/Web/Limiter/Examples.antt =====
-- A bucket of tokens that is not refilled, and requests by their length.
use goddd.Common.Int.{pos}
use goddd.Common.{◌≡◌, refl, ℕ, zero, suc, Bool, true, false, ◌==◌, List, [], ◌∷◌}
use goddd.Reason.{Error}
use goddd.Web.Limiter.{next, aborted, rate_limiter, limit_content_length, Bucket}

take_one : ℕ → ℕ × Bool
take_one zero = (zero, false)
take_one (suc n) = (n, true)

abbrev tokens : Bucket
tokens = record { Limiter = ℕ; allow = take_one }

abbrev busy : Error
busy = record { reason = "ErrRateLimit"; msg = ""; details = []; http_status = 429 }

abbrev large : Error
large = record { reason = "ErrContentTooLarge"; msg = ""; details = []; http_status = 400 }

-- A length of 7 is let through.
abbrev options : List (ℕ → Bool)
options = (λ n. n == 7) ∷ []

-- With an empty bucket, a request of length 7 passes and one of length 8 does not.
let_through : rate_limiter tokens busy options 7 0 ≡ (0, next)
unfolding rate_limiter take_one
let_through = refl

too_large : limit_content_length (λ n. pos n) large (pos 5) options 8 ≡ aborted large
unfolding limit_content_length
too_large = refl
