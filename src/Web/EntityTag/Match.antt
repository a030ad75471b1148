-- ===== src/Web/EntityTag/Match.antt =====
-- A client that asks again.
use mathlib.Core.Bool.{false≢true}
use goddd.Common.Text.{same_iff, same, Bytes}
use goddd.Web.EntityTag.{etag_body, etag_of, ignored, Answer, Request, Bytes, etag_handler}
use goddd.Common.{
  ◌&&◌, drop, not, ap, ◌∙◌, Bool-cases, sym, ◌∷◌, inr, inl, true, refl, ◌++◌, ◌≢◌, ◌⊎◌, [], ◌≡◌,
  Bool, List, some, false, ℕ,
}

abbrev drop_last : Bytes → Bytes
drop_last [] = []
drop_last (x ∷ []) = []
drop_last (x ∷ y ∷ zs) = x ∷ drop_last (y ∷ zs)

drop_last_lem : (xs : Bytes) (c : ℕ) → drop_last (xs ++ (c ∷ [])) ≡ xs
drop_last_lem [] c = refl
drop_last_lem (x ∷ []) c = refl
drop_last_lem (x ∷ y ∷ zs) c = ap (◌∷◌ x) (drop_last_lem (y ∷ zs) c)

-- Of the hashes in tags that are the same.
etag_of_injective :
    (hash : Bytes → Bytes) (xs ys : Bytes) → etag_of hash xs ≡ etag_of hash ys → hash xs ≡ hash ys
unfolding etag_of
etag_of_injective hash xs ys h =
    sym (drop_last_lem (hash xs) 34) ∙ ap (λ t. drop_last (drop 1 t)) h ∙ drop_last_lem (hash ys) 34

etag_of_ap :
    (hash : Bytes → Bytes) (xs ys : Bytes) → hash xs ≡ hash ys → etag_of hash xs ≡ etag_of hash ys
unfolding etag_of
etag_of_ap hash xs ys h = ap (λ t. 34 ∷ (t ++ (34 ∷ []))) h

-- The two tests of the header, where it holds a tag.
matches :
    (hash : Bytes → Bytes) (old body : Bytes) (c : Bool)
    → same (etag_of hash old) (etag_of hash body) ≡ c
    → (not (same (etag_of hash old) []) && same (etag_of hash old) (etag_of hash body)) ≡ c
unfolding etag_of same
matches hash old body c h = h

-- A client that sends the tag of an earlier answer gets, for the same bytes, the status 304 and no
-- bytes; for bytes with another hash it gets all of them, and no status is set.
pub etag_handler_lem :
    (hash : Bytes → Bytes) (fns : List (Request → Bool)) (r : Request) (pieces : List Bytes)
    (old : Bytes) (a : Answer)
    → ignored fns r ≡ false
    → r.if_none_match ≡ etag_of hash old
    → ((hash old ≡ hash (etag_body pieces []))
        × ((etag_handler hash fns r pieces a).status ≡ some 304)
        × ((etag_handler hash fns r pieces a).sent ≡ a.sent))
      ⊎ ((hash old ≢ hash (etag_body pieces []))
          × ((etag_handler hash fns r pieces a).status ≡ a.status)
          × ((etag_handler hash fns r pieces a).sent ≡ a.sent ++ etag_body pieces []))
unfolding etag_handler
etag_handler_lem hash fns r pieces old a i m =
    let body = etag_body pieces [] in
    elim (Bool-cases (same (etag_of hash old) (etag_of hash body))) [
      | inl b ↦
          (let equal = (same_iff (etag_of hash old) (etag_of hash body)).0 b in
            inl (
              etag_of_injective hash old body equal,
              rw i (rw m (rw (matches hash old body true b) refl)),
              rw i (rw m (rw (matches hash old body true b) refl)),
            ))
      | inr b ↦ inr (
        (λ e. false≢true (
            sym b
            ∙ (same_iff (etag_of hash old) (etag_of hash body)).1 (etag_of_ap hash old body e))),
        rw i (rw m (rw (matches hash old body false b) refl)),
        rw i (rw m (rw (matches hash old body false b) refl)),
      )
    ]
