-- ===== src/Web/Response/Examples.antt =====
-- A request that is refused, and an error that is answered.
use Prim.Native.String.{String}
use goddd.Web.Response.Errors.{fail-abort_with_status_json, answered}
use goddd.Common.Int.{pos}
use goddd.Web.Response.Wrap.{
  wrap_h_lem, filled, refused, checked, by_method, get, bind, Binding, wrap_h, Request,
}
use goddd.Reason.{with_args, Error}
use goddd.Web.Response.{
  code_of, handdle_json_err, abort_with_status_json, String, eof, info, WithData, Err, fail,
  Context, Format, Sent, Globals,
}
use goddd.Common.{◌⊎◌, ◌++◌, ◌+◌, ◌∷◌, ◌≡◌, [], List, Option, some, none, false, true, refl, ℕ}

abbrev bad_request : Error
bad_request = record { reason = "ErrBadRequest"; msg = "bad"; details = []; http_status = 400 }

abbrev with_details : Error
with_details = record {
  reason = "ErrStore";
  msg = "failed";
  details = "dsn" ∷ [];
  http_status = 503;
}

abbrev start : Context ℕ
start = record { trace = none; answers = []; response_err = none; aborted = false }

abbrev release : Globals
release = record { default_debug = false }

abbrev no_data : List WithData
no_data = []

fail-abort_with_status_json_example :
    ((fail release (info with_details) no_data start).answers
      ≡ answered release with_details no_data start)
    × ((abort_with_status_json release (info with_details) no_data start).answers
        ≡ answered release with_details no_data start)
    × ((fail release (info with_details) no_data start).aborted ≡ false)
    × ((abort_with_status_json release (info with_details) no_data start).aborted ≡ true)
fail-abort_with_status_json_example = fail-abort_with_status_json release with_details no_data start

plain : Format
plain = record { with_number = λ s n. s; with_quoted = λ s t. t }

-- The query is malformed.
abbrev refusing : Binding ℕ
refusing = record {
  from_uri = λ ps i. (i, none);
  from_query = λ r i. (i, some eof);
  from_body = λ r i. (i, none);
}

abbrev a_get : Request
a_get = record { method = get; params = []; content_length = pos 0; content_type = "" }

count_calls : ℕ → ℕ → ℕ × (ℕ × Option Err)
count_calls i s = (s + 1, (i, none))

abbrev refused_answer : Context ℕ
refused_answer = fail release (info (with_args ("正文不能为空" ∷ []) bad_request)) no_data start

refused_run :
    wrap_h plain release bad_request true refusing 7 count_calls a_get start 0
    ≡ some (refused_answer, 0)
unfolding wrap_h bind by_method checked handdle_json_err
refused_run = refl

wrap_h_lem_example :
    (code : ℕ) × (sent : Sent ℕ) × (refused_answer.answers ≡ [] ++ ((code, sent) ∷ []))
    × (((d : String) × (bind plain true refusing a_get 7 ≡ refused d)
          × (◌≡◌ {A = ℕ} 0 0)
          × (code ≡ 400))
        ⊎ ((i : ℕ) × (bind plain true refusing a_get 7 ≡ filled i)
            × (0 ≡ (count_calls i 0).0)
            × ((((count_calls i 0).1.1 ≡ none) × (code ≡ 200))
                ⊎ ((e : Err) × ((count_calls i 0).1.1 ≡ some e) × (code ≡ code_of 400 e)))))
wrap_h_lem_example =
    wrap_h_lem plain release bad_request true refusing 7 count_calls a_get start refused_answer 0 0
      refused_run
