-- ===== src/Web/Response.antt =====
-- pkg/web/response.go: how an error or a result is answered, and `WrapH`, which binds the input of a
-- request, calls the handler and answers.
-- The map `out` of an answer is the record `Body`: its four keys, and those that a `WithData` adds.
pub mod Errors
pub mod Wrap
mod Examples
use goddd.Common.Assoc.{insert, lookup}
use goddd.Common.Text.{trim_prefix, bytes_discrete, Bytes}
use Prim.Native.String.{[], ◌∷◌, String}
use goddd.Reason.{set_msg, error_pieces, Error}
use goddd.Common.{
  ◌==◌, [], ◌∷◌, if◌then◌else◌, not, ◌++◌, true, false, none, Bool, List, Option, some, ℕ,
}
use Prim.Native.String

-- The global `defaultDebug`.
pub record Globals : Type 0 where
  pub default_debug : Bool

pub is_release : Globals → Bool
is_release g = not g.default_debug

pub set_release : Globals → Globals
set_release g = record { default_debug = false }

pub set_debug : Globals → Globals
set_debug g = record { default_debug = true }

-- An error is an `ErrorInfoer`, of which `reason.Error` is the one of the program, or another.
pub data Err : Type 0 where
  info : Error → Err
  other : String → Err

-- The text of `Error()`, as its pieces.
pub error_text : Err → List String
error_text (info e) = error_pieces e
error_text (other s) = s ∷ []

pub record Body : Type 0 where
  pub trace_id : Option Bytes
  pub reason : Option String
  pub msg : Option String
  pub details : Option (List String)
  pub others : List (Bytes × Bytes)

abbrev pub empty_body : Body
empty_body = record { trace_id = none; reason = none; msg = none; details = none; others = [] }

abbrev pub WithData : Type 0
WithData = Body → Body

-- What is sent: the JSON of a result, or the body of an error.
pub data Sent (Out : Type 0) : Type 0 where
  result : Out → Sent Out
  body : Body → Sent Out

-- The context of a request: what `TraceID` finds, the answers in their order with their codes, the
-- value under `ResponseErr`, and whether the handlers that follow are skipped.
pub record Context (Out : Type 0) : Type 0 where
  pub trace : Option Bytes
  pub answers : List (ℕ × Sent Out)
  pub response_err : Option (List String)
  pub aborted : Bool

pub apply_with_data : List WithData → Body → Body
apply_with_data [] b = b
apply_with_data (fn ∷ fns) b = apply_with_data fns (fn b)

-- `details` is set in debug mode, if there are any.
pub shown_details : Globals → Error → Option (List String)
shown_details g e = elim e.details [
  | [] ↦ none
  | d ∷ ds ↦ if g.default_debug then some (d ∷ ds) else none
]

-- The keys that the error fills.
abbrev pub fill : Globals → Err → Body → Body
fill g (info e) b = record b {
  reason = some e.reason;
  msg = some e.msg;
  details = shown_details g e;
}
fill g (other s) b = b

-- The code of an error, and that of any other error.
abbrev pub code_of : ℕ → Err → ℕ
code_of n (info e) = e.http_status
code_of n (other s) = n

module _ {Out : Type 0} where
  pub json : ℕ → Sent Out → Context Out → Context Out
  json code sent c = record c { answers = c.answers ++ ((code, sent) ∷ []) }

  pub success : Out → Context Out → Context Out
  unfolding json
  success bean c = json 200 (result bean) c

  pub fail : Globals → Err → List WithData → Context Out → Context Out
  unfolding json apply_with_data shown_details error_text
  fail g err fns c =
      let out = fill g err (record empty_body { trace_id = c.trace }) in
      let c' = json (code_of 400 err) (body (apply_with_data fns out)) c in
      record c' { response_err = some (error_text err) }

  -- The code is the zero value for an error that carries none.
  pub abort_with_status_json : Globals → Err → List WithData → Context Out → Context Out
  unfolding json apply_with_data shown_details error_text
  abort_with_status_json g err fns c =
      let out = record (fill g err empty_body) { trace_id = c.trace } in
      let c' = json (code_of 0 err) (body (apply_with_data fns out)) c in
      record c' { aborted = true; response_err = some (error_text err) }

-- `HandlerResponseMsg`: the status code and the status line of an answer, and what the decoder makes
-- of its body. `Decode` leaves the zero value where it fails at once.
pub data Decoded : Type 0 where
  decoded : String → Decoded
  decode_failed : String → Decoded

pub handler_response_msg : Error → ℕ → String → Decoded → Option Error
handler_response_msg err_server code status (decoded m) =
    if code == 200 then none else some (set_msg status err_server)
handler_response_msg err_server code status (decode_failed m) =
    if code == 200 then none else some (set_msg m err_server)

-- `HanddleJSONErr`: the errors of `encoding/json` that it tells apart. `sprintf` puts a number or a
-- quoted text into a format. `none` is the panic.
pub data JsonErr : Type 0 where
  syntax_error : ℕ → JsonErr
  unexpected_eof : JsonErr
  unmarshal_type_error : String → ℕ → JsonErr
  eof : JsonErr
  invalid_unmarshal_error : JsonErr
  any_other : String → JsonErr

pub record Format : Type 0 where
  pub with_number : String → ℕ → String
  pub with_quoted : String → String → String

unfoldable pub handdle_json_err : Format → JsonErr → Option String
handdle_json_err f (syntax_error offset) = some (f.with_number "格式错误 (位于 %d)" offset)
handdle_json_err f unexpected_eof = some "格式错误"
handdle_json_err f (unmarshal_type_error String.[] offset) =
    some (f.with_number "正文包含不正确的格式类型 (位于 %d)" offset)
handdle_json_err f (unmarshal_type_error (String.◌∷◌ c field) offset) =
    some (f.with_quoted "正文包含不正确的格式类型 %q" (String.◌∷◌ c field))
handdle_json_err f eof = some "正文不能为空"
handdle_json_err f invalid_unmarshal_error = none
handdle_json_err f (any_other s) = some s

-- `CustomMethods`: each handler is filed again under its name without a colon, and a request for
-- ":name" finds it. `none` is the answer 404.
module _ {H : Type 0} where
  pub refile : List (Bytes × H) → List (Bytes × H) → List (Bytes × H)
  refile [] handlers = handlers
  refile ((k, v) ∷ more) handlers =
      refile more (insert bytes_discrete (trim_prefix k (b':' ∷ [])) v handlers)

  pub custom_method : List (Bytes × H) → Bytes → Option H
  unfolding refile
  custom_method handlers method =
      lookup bytes_discrete (trim_prefix method (b':' ∷ [])) (refile handlers handlers)
