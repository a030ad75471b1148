-- ===== src/Web/Logging/Handlers/Transparent.antt =====
-- What a client and the handlers notice of the middleware that logs.
use mathlib.Core.Option
use goddd.Web.Logging.Written.{concat, write_all_lem}
use goddd.Common.Text.{hex, Bytes}
use goddd.Web.Logging.{Bytes, Request}
use goddd.Common.Int.{◌*ℤ◌, wrap64, ltb_ℤ, pos, ℤ}
use goddd.Web.Logging.Handlers.{
  concat, is_ignored, logger_with_use_time, logger, Incoming, Request, Handler, slice_to, ℤ,
  pass_on, request_body, logger_with_body, Outcome, with_bodies,
}
use goddd.Common.{
  arith, [], take, length, ◌∙◌, Option, sym, Bool-cases, ap, inr, inl, refl, Bool, List, ◌≡◌, some,
  true, ℕ,
}

-- With such a limit the slice does not panic.
request_body_given : (n : ℕ) (i : Incoming) → (text : Bytes) × (request_body (pos n) i ≡ some text)
unfolding request_body slice_to
request_body_given n i = elim (Bool-cases i.readable) [
  | inr b ↦ ([], rw b refl)
  | inl b ↦ elim (Bool-cases (ltb_ℤ (pos n) (pos (length i.raw)))) [
    | inl c ↦ (take n i.raw, ground (arith, b, c))
    | inr c ↦ (take (length i.raw) i.raw, ground (arith, b, c))
  ]
]

module _ {S : Type 0} where
  -- Outcomes that only the log tells apart.
  abbrev pub SameAnswer : S × Outcome → S × Outcome → Type 0
  SameAnswer (s, o) (s', o') = (s ≡ s') × (o.status ≡ o'.status) × (o.sent ≡ o'.sent)

  with_bodies-SameAnswer :
      (limit : ℤ) (h : Handler S) (i : Incoming) (s : S) (req_body : Bytes)
      → i.readable ≡ true
      → SameAnswer (with_bodies limit h i s req_body) (pass_on h i s)
  unfolding with_bodies pass_on
  with_bodies-SameAnswer limit h i s req_body r =
      let same : record i { readable = true } ≡ i = ap (λ b. record i { readable = b }) (sym r) in
      (
        ap (λ j. (h j s).0) same,
        ap (λ j. (h j s).1.status) same,
        (write_all_lem (h (record i { readable = true }) s).1.writes limit).0
            ∙ ap (λ j. concat (h j s).1.writes) same,
      )

  logger_with_body-SameAnswer :
      (n : ℕ) (ignore_fn : List (Request → Bool)) (h : Handler S) (i : Incoming) (s : S)
      → i.readable ≡ true
      → (out : S × Outcome) × (logger_with_body (pos n) ignore_fn h i s ≡ some out)
        × SameAnswer out (pass_on h i s)
  unfolding logger_with_body
  logger_with_body-SameAnswer n ignore_fn h i s r =
      elim (Bool-cases (ltb_ℤ (wrap64 (pos n *ℤ pos 3)) i.content_length)) [
        | inl b ↦ (pass_on h i s, rw b refl, (refl, refl, refl))
        | inr b ↦ elim (Bool-cases (is_ignored ignore_fn i.request)) [
          | inl c ↦ (pass_on h i s, rw (b, c) refl, (refl, refl, refl))
          | inr c ↦
              (let (text, given) = request_body_given n i in
                (
                  with_bodies (pos n) h i s text,
                  rw (b, c) (ap (Option.map (with_bodies (pos n) h i s)) given),
                  with_bodies-SameAnswer (pos n) h i s text r,
                ))
        ]
      ]

  logger-SameAnswer :
      (unescape : Bytes → Option Bytes) (ignore_fn : List (Request → Bool)) (guid : Bytes)
      (since : ℕ) (h : Handler S) (i : Incoming) (s : S)
      → SameAnswer
          (logger unescape ignore_fn guid since h i s)
          (pass_on h (record i { trace_id = hex guid }) s)
  unfolding logger pass_on
  logger-SameAnswer unescape ignore_fn guid since h i s =
      elim (Bool-cases (is_ignored ignore_fn i.request)) [
        | inl b ↦ rw b (refl, refl, refl)
        | inr b ↦ rw b (refl, refl, refl)
      ]

  logger_with_use_time-SameAnswer :
      (max_limit : ℕ) (ignore_fn : List (Request → Bool)) (since : ℕ) (h : Handler S) (i : Incoming)
      (s : S)
      → SameAnswer (logger_with_use_time max_limit ignore_fn since h i s) (pass_on h i s)
  unfolding logger_with_use_time pass_on
  logger_with_use_time-SameAnswer max_limit ignore_fn since h i s =
      elim (Bool-cases (is_ignored ignore_fn i.request)) [
        | inl b ↦ rw b (refl, refl, refl)
        | inr b ↦ rw b (refl, refl, refl)
      ]

  -- Each of the three middlewares answers a request as without it: the handlers run once, on the same
  -- request, and the client is sent the same status and the same bytes. Behind `Logger` the request
  -- has the trace id besides; for `LoggerWithBody` the body must be one that can be read, and with
  -- a limit that is not negative it does not panic.
  pub answered_as_without :
      (unescape : Bytes → Option Bytes) (ignore_fn : List (Request → Bool)) (guid : Bytes)
      (since max_limit n : ℕ) (h : Handler S) (i : Incoming) (s : S)
      → i.readable ≡ true
      → SameAnswer
          (logger unescape ignore_fn guid since h i s)
          (pass_on h (record i { trace_id = hex guid }) s)
        × SameAnswer (logger_with_use_time max_limit ignore_fn since h i s) (pass_on h i s)
        × ((out : S × Outcome) × (logger_with_body (pos n) ignore_fn h i s ≡ some out)
            × SameAnswer out (pass_on h i s))
  answered_as_without unescape ignore_fn guid since max_limit n h i s r = (
    logger-SameAnswer unescape ignore_fn guid since h i s,
    logger_with_use_time-SameAnswer max_limit ignore_fn since h i s,
    logger_with_body-SameAnswer n ignore_fn h i s r,
  )
