-- ===== src/Web/Response/Errors.antt =====
-- What an error answers with: `Fail` and `AbortWithStatusJSON` agree on errors with a reason, and
-- in release mode no details are sent.
use goddd.Common.Text.{Bytes}
use Prim.Native.String.{◌∷◌, [], String}
use goddd.Reason.{Error}
use goddd.Web.Response.{
  Body, Sent, Bytes, info, apply_with_data, body, shown_details, String, Context, WithData, Error,
  Globals, abort_with_status_json, fail,
}
use goddd.Common.{refl, true, ◌∷◌, ◌++◌, arith, [], ◌≡◌, Option, none, if◌then◌else◌, some, List, ℕ}

abbrev pub nonempty : List String → Option (List String)
nonempty [] = none
nonempty (d ∷ ds) = some (d ∷ ds)

shown_details_lem :
    (g : Globals) (e : Error)
    → shown_details g e ≡ (if g.default_debug then nonempty e.details else none)
unfolding shown_details
shown_details_lem g e = ground arith

-- The body for an error with a reason, before data is added.
pub expected_body : Globals → Error → Option Bytes → Body
expected_body g e trace = record {
  trace_id = trace;
  reason = some e.reason;
  msg = some e.msg;
  details = if g.default_debug then nonempty e.details else none;
  others = [];
}

module _ {Out : Type 0} where
  abbrev pub answered : Globals → Error → List WithData → Context Out → List (ℕ × Sent Out)
  answered g e fns c =
      c.answers ++ ((e.http_status, body (apply_with_data fns (expected_body g e c.trace))) ∷ [])

  -- `Fail` and `AbortWithStatusJSON` send the same code and the same body for an error with a reason,
  -- whatever data is added: one answer more, after those that were there. The body before the added
  -- data holds the reason, the message and the trace, and its details are those of the error if the
  -- program is in debug mode and none in release mode.
  pub fail-abort_with_status_json :
      (g : Globals) (e : Error) (fns : List WithData) (c : Context Out)
      → ((fail g (info e) fns c).answers ≡ answered g e fns c)
        × ((abort_with_status_json g (info e) fns c).answers ≡ answered g e fns c)
        × ((fail g (info e) fns c).aborted ≡ c.aborted)
        × ((abort_with_status_json g (info e) fns c).aborted ≡ true)
  unfolding fail abort_with_status_json expected_body
  fail-abort_with_status_json g e fns c =
      let same_details = shown_details_lem g e in
      (rw same_details refl, rw same_details refl, refl, refl)
