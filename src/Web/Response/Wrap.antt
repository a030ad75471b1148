-- ===== src/Web/Response/Wrap.antt =====
-- `WrapH`: the input is bound from the path, and then from the query or the body by the method.
-- gin's binding is the record `Binding`: each of its calls fills the input or fails. The handler may
-- change the world `S`.
use goddd.Reason.{with_args, Error}
use goddd.Common.Int.{pos, ℤ, ltb_ℤ}
use goddd.Common.Text.{Bytes}
use Prim.Native.String.{◌∷◌, [], String}
use goddd.Web.Response.{
  empty_body, fill, apply_with_data, body, result, code_of, Sent, json, info, fail, success,
  Context, handdle_json_err, Err, Error, JsonErr, Globals, Bytes, Format,
}
use goddd.Common.{
  arith, Option-cases, ◌++◌, ◌⊎◌, inr, inl, refl, ◌∷◌, [], none, ◌≡◌, some, not, if◌then◌else◌,
  Bool, Option, List, ℕ,
}

pub data Method : Type 0 where
  get : Method
  delete : Method
  post : Method
  put : Method
  patch : Method
  any_other : Method

pub record Request : Type 0 where
  pub method : Method
  pub params : List (Bytes × Bytes)
  pub content_length : ℤ
  pub content_type : String

pub record Binding (In : Type 0) : Type 0 where
  pub from_uri : List (Bytes × Bytes) → In → In × Option JsonErr
  pub from_query : Request → In → In × Option JsonErr
  pub from_body : Request → In → In × Option JsonErr

-- What the binding comes to: the input, the details of a refusal, or a panic.
pub data Bound (In : Type 0) : Type 0 where
  filled : In → Bound In
  refused : String → Bound In
  panics : Bound In

module _ {In : Type 0} (f : Format) where
  unfoldable pub checked : In × Option JsonErr → Bound In
  checked (i, none) = filled i
  checked (i, some e) = elim (handdle_json_err f e) [ none ↦ panics | some s ↦ refused s ]

  -- A body needs a content type.
  pub with_body : Binding In → Request → In → Bound In
  unfolding checked
  with_body b r i = elim r.content_type [
    | String.[] ↦ refused "Content-Type 不能为空"
    | String.◌∷◌ c s ↦ checked (b.from_body r i)
  ]

  unfoldable pub by_method : Binding In → Request → In → Method → Bound In
  unfolding checked with_body
  by_method b r i get = checked (b.from_query r i)
  by_method b r i delete =
      if ltb_ℤ (pos 0) r.content_length then with_body b r i else checked (b.from_query r i)
  by_method b r i post = if ltb_ℤ (pos 0) r.content_length then with_body b r i else filled i
  by_method b r i put = if ltb_ℤ (pos 0) r.content_length then with_body b r i else filled i
  by_method b r i patch = if ltb_ℤ (pos 0) r.content_length then with_body b r i else filled i
  by_method b r i any_other = filled i

  -- The path first, if the route has parameters; nothing at all for an input without fields.
  unfoldable pub bind : Bool → Binding In → Request → In → Bound In
  unfolding checked by_method
  bind has_fields b r zero_value = if not has_fields then filled zero_value else elim r.params [
    | [] ↦ by_method b r zero_value r.method
    | p ∷ ps ↦ elim (checked (b.from_uri (p ∷ ps) zero_value)) [
      | filled i ↦ by_method b r i r.method
      | refused s ↦ refused s
      | panics ↦ panics
    ]
  ]

Bound-cases :
    {In : Type 0} (b : Bound In)
    → ((i : In) × (b ≡ filled i)) ⊎ (((d : String) × (b ≡ refused d)) ⊎ (b ≡ panics))
Bound-cases (filled i) = inl (i, refl)
Bound-cases (refused d) = inr (inl (d, refl))
Bound-cases panics = inr (inr refl)

module _ {Out S : Type 0} (g : Globals) where
  -- The handler's own result.
  pub finish : S × (Out × Option Err) → Context Out → Context Out × S
  finish (s, (out, none)) c = (success out c, s)
  finish (s, (out, some e)) c = (fail g e [] c, s)

module _ {In Out S : Type 0} (f : Format) (g : Globals) (err_bad_request : Error) where
  unfoldable pub wrap_h :
      Bool
      → Binding In
      → In
      → (In → S → S × (Out × Option Err))
      → Request
      → Context Out
      → S
      → Option (Context Out × S)
  unfolding bind finish
  wrap_h has_fields b zero_value fn r c s = elim (bind f has_fields b r zero_value) [
    | panics ↦ none
    | refused detail ↦ some (fail g (info (with_args (detail ∷ []) err_bad_request)) [] c, s)
    | filled i ↦ some (finish g (fn i s) c)
  ]

  -- What a request comes to, unless the binding panics. There is one answer. If the input is refused,
  -- its code is that of a bad request, the handler is not called and the world is as it was. If it is
  -- filled, the handler is called once, with the input, and the answer has the code 200, or the code
  -- of its error, or 400 for an error without a reason.
  pub wrap_h_lem :
      (has_fields : Bool) (b : Binding In) (zero_value : In) (fn : In → S → S × (Out × Option Err))
      (r : Request) (c c' : Context Out) (s s' : S)
      → wrap_h has_fields b zero_value fn r c s ≡ some (c', s')
      → (code : ℕ) × (sent : Sent Out) × (c'.answers ≡ c.answers ++ ((code, sent) ∷ []))
        × (((d : String) × (bind f has_fields b r zero_value ≡ refused d)
              × (s' ≡ s)
              × (code ≡ err_bad_request.http_status))
            ⊎ ((i : In) × (bind f has_fields b r zero_value ≡ filled i)
                × (s' ≡ (fn i s).0)
                × ((((fn i s).1.1 ≡ none) × (code ≡ 200))
                    ⊎ ((e : Err) × ((fn i s).1.1 ≡ some e) × (code ≡ code_of 400 e)))))
  unfolding wrap_h finish success fail json with_args
  wrap_h_lem has_fields b zero_value fn r c c' s s' h =
      elim (Bound-cases (bind f has_fields b r zero_value)) [
        | inl (i, e) ↦ elim (Option-cases (fn i s).1.1) [
          | inl fine ↦ (
            200,
            result (fn i s).1.0,
            ground (arith, h, e, fine),
            inr (i, e, ground (arith, h, e, fine), inl (fine, refl)),
          )
          | inr (er, failed) ↦ (
            code_of 400 er,
            body (apply_with_data [] (fill g er (record empty_body { trace_id = c.trace }))),
            ground (arith, h, e, failed),
            inr (i, e, ground (arith, h, e, failed), inr (er, failed, refl)),
          )
        ]
        | inr (inl (d, e)) ↦ (
          err_bad_request.http_status,
          body (
              apply_with_data [] (
                fill g (info (with_args (d ∷ []) err_bad_request))
                  (record empty_body { trace_id = c.trace }))),
          ground (arith, h, e),
          inl (d, e, ground (arith, h, e), refl),
        )
        | inr (inr e) ↦ absurd (ground (arith, h, e))
      ]
