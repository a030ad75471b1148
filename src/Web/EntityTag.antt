-- ===== src/Web/EntityTag.antt =====
-- pkg/web/cache.go: the entity tag of an answer, and the age that a client may keep it. The hash of
-- hook.MD5FromBytes is any function of the bytes. `itoa` is strconv.Itoa.
pub mod Match
mod Examples
use goddd.Common.Text.{codes, same, Bytes}
use goddd.Common.Int.{ℤ}
use goddd.Common.{◌&&◌, not, if◌then◌else◌, ◌||◌, Option, ◌++◌, Bool, [], List, ◌∷◌, some, false, ℕ}

pub record Request : Type 0 where
  pub method : Bytes
  pub if_none_match : Bytes

-- What the client gets: the headers in the order they are set, the status that is set here, and the
-- bytes.
pub record Answer : Type 0 where
  pub headers : List (Bytes × Bytes)
  pub status : Option ℕ
  pub sent : Bytes

-- The handlers behind write in pieces: `EtagWriter.Write` keeps them.
pub etag_write : Bytes → Bytes → Bytes
etag_write s body = body ++ s

pub etag_body : List Bytes → Bytes → Bytes
unfolding etag_write
etag_body [] body = body
etag_body (s ∷ ss) body = etag_body ss (etag_write s body)

pub ignored : List (Request → Bool) → Request → Bool
ignored [] r = false
ignored (fn ∷ fns) r = fn r || ignored fns r

pub etag_of : (Bytes → Bytes) → Bytes → Bytes
etag_of hash body = 34 ∷ (hash body ++ (34 ∷ []))

-- `EtagHandler`, where the handlers behind write `pieces`.
pub etag_handler : (Bytes → Bytes) → List (Request → Bool) → Request → List Bytes → Answer → Answer
unfolding etag_body ignored etag_of
etag_handler hash ignore_fn r pieces a =
    if ignored ignore_fn r
    then record a { sent = etag_body pieces a.sent }
    else (let body = etag_body pieces [] in
        let etag = etag_of hash body in
        let tagged = (codes "ETag", etag) ∷ a.headers in
        if not (same r.if_none_match []) && same r.if_none_match etag
        then record a { headers = tagged; status = some 304 }
        else record a { headers = tagged; sent = a.sent ++ body })

-- `CacheControlMaxAge`, before the handlers behind.
pub cache_control_max_age : (ℤ → Bytes) → ℤ → List (Request → Bool) → Request → Answer → Answer
unfolding ignored
cache_control_max_age itoa second ignore_fn r a =
    if ignored ignore_fn r
    then a
    else if same r.method (codes "GET")
    then record a { headers = (codes "Cache-Control", codes "max-age=" ++ itoa second) ∷ a.headers }
    else a
