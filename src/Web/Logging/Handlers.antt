-- ===== src/Web/Logging/Handlers.antt =====
-- pkg/web/log.go: the middleware `Logger`, `LoggerWithBody` and `LoggerWithUseTime`. The handlers behind
-- it are a function on a state of theirs. It writes its answer with `Write`; a panic in it is not
-- modelled.
pub mod Transparent
mod Examples
use goddd.Web.Logging.{new_buffer_writer, write_all, Request}
use goddd.Common.Text.{hex, Bytes}
use goddd.Web.Logging.Written.{concat}
use goddd.Common.Int.{◌*ℤ◌, wrap64, negsuc, ltb_ℤ, pos, ℤ}
use mathlib.Core.Option
use goddd.Common.{
  ◌||◌, ltb, ◌==◌, ◌&&◌, length, leb, not, [], if◌then◌else◌, take, ◌/◌, Option, Bool, List, ◌∷◌,
  some, none, false, true, ℕ,
}

-- A request as a handler has it: `raw` is what the body gives before its end, or, if it is not
-- `readable`, before an error.
pub record Incoming : Type 0 where
  pub request : Request
  pub raw_query : Bytes
  pub client_ip : Bytes
  pub content_length : ℤ
  pub raw : Bytes
  pub readable : Bool
  pub trace_id : Bytes

-- What a handler leaves: the status, its writes, and the value under the key `ResponseErr`.
pub record Answer : Type 0 where
  pub status : ℕ
  pub writes : List Bytes
  pub response_err : Option Bytes

abbrev pub Handler : Type 0 → Type 0
Handler S = Incoming → S → S × Answer

-- The lines of the log. `err` is there where the key is, and may be nil.
pub data Line : Type 0 where
  ok_line : Bytes → Bytes → Bytes → Bytes → ℕ → ℤ → Line
  bad_line : Bytes → Bytes → Bytes → Bytes → ℕ → ℤ → Option (Option Bytes) → Line
  body_line : Bytes → Bytes → Line
  slow_line : ℤ → Bytes → Line

-- What the client is sent, and what the log is given.
pub record Outcome : Type 0 where
  pub status : ℕ
  pub sent : Bytes
  pub line : Option Line

-- `for _, fn := range ignoreFn { if fn(c) { … } }`
pub is_ignored : List (Request → Bool) → Request → Bool
is_ignored [] r = false
is_ignored (fn ∷ fns) r = if fn r then true else is_ignored fns r

-- `time.Duration.Milliseconds`, of a duration that is not negative.
pub milliseconds : ℕ → ℤ
milliseconds ns = pos (ns / 1_000_000)

-- The line of a request that is not ignored.
pub line_of : (Bytes → Option Bytes) → Incoming → Answer → ℕ → Line
unfolding milliseconds
line_of unescape i a since =
    let query : Bytes = elim (unescape i.raw_query) [ some q ↦ q | none ↦ i.raw_query ] in
    let r = i.request in
    if leb 200 a.status && ltb a.status 400
    then ok_line r.method r.path query i.client_ip a.status (milliseconds since)
    else bad_line r.method r.path query i.client_ip a.status (milliseconds since)
        (if not (a.status == 404 || a.status == 401) then some a.response_err else none)

-- `raw[:l]`, where a negative bound panics.
pub slice_to : ℤ → Bytes → Option Bytes
slice_to (pos n) s = some (take n s)
slice_to (negsuc n) s = none

-- The text of the request for the log.
pub request_body : ℤ → Incoming → Option Bytes
unfolding slice_to
request_body limit i =
    if i.readable
    then slice_to (if ltb_ℤ limit (pos (length i.raw)) then limit else pos (length i.raw)) i.raw
    else some []

module _ {S : Type 0} where
  -- The handler with no line for the log.
  pub pass_on : Handler S → Incoming → S → S × Outcome
  pass_on h i s =
      let (s', a) = h i s in (s', record { status = a.status; sent = concat a.writes; line = none })

  -- `Logger`. `guid` is what uuid.New gives, `unescape` is url.PathUnescape, and `since` the
  -- nanoseconds that the handler takes.
  pub logger :
      (Bytes → Option Bytes)
      → List (Request → Bool)
      → Bytes
      → ℕ
      → Handler S
      → Incoming
      → S
      → S × Outcome
  unfolding pass_on line_of is_ignored
  logger unescape ignore_fn guid since h i s =
      let i' : Incoming = record i { trace_id = hex guid } in
      if is_ignored ignore_fn i'.request
      then pass_on h i' s
      else (let (s', a) = h i' s in
          (
            s',
            record {
              status = a.status;
              sent = concat a.writes;
              line = some (line_of unescape i' a since);
            },
          ))

  -- What runs behind the gates of `LoggerWithBody`.
  pub with_bodies : ℤ → Handler S → Incoming → S → Bytes → S × Outcome
  with_bodies limit h i s req_body =
      let (s', a) = h (record i { readable = true }) s in
      let blw = write_all a.writes (new_buffer_writer limit) in
      (
        s',
        record {
          status = a.status;
          sent = blw.sent;
          line = if not (a.status == 404) then some (body_line req_body blw.body) else none;
        },
      )

  -- `LoggerWithBody`; `none` is the panic of the slice.
  pub logger_with_body : ℤ → List (Request → Bool) → Handler S → Incoming → S → Option (S × Outcome)
  unfolding is_ignored pass_on request_body with_bodies
  logger_with_body limit ignore_fn h i s =
      if ltb_ℤ (wrap64 (limit *ℤ pos 3)) i.content_length
      then some (pass_on h i s)
      else if is_ignored ignore_fn i.request
      then some (pass_on h i s)
      else Option.map (with_bodies limit h i s) (request_body limit i)

  -- `LoggerWithUseTime`
  pub logger_with_use_time : ℕ → List (Request → Bool) → ℕ → Handler S → Incoming → S → S × Outcome
  unfolding is_ignored pass_on milliseconds
  logger_with_use_time max_limit ignore_fn since h i s =
      if is_ignored ignore_fn i.request
      then pass_on h i s
      else (let (s', o) = pass_on h i s in
          (
            s',
            record o {
              line =
                  if leb max_limit since
                  then some (slow_line (milliseconds since) i.request.path)
                  else none;
            },
          ))
