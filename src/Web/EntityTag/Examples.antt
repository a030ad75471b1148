-- ===== src/Web/EntityTag/Examples.antt =====
-- The hash is the length, and the client has the tag of two bytes.
use goddd.Common.Text.{codes, Bytes}
use goddd.Web.EntityTag.{Request, etag_of, Answer}
use goddd.Common.{◌≡◌, length, [], ◌∷◌, none, refl}

abbrev by_length : Bytes → Bytes
by_length s = length s ∷ []

abbrev again : Request
again = record { method = codes "GET"; if_none_match = 34 ∷ 2 ∷ 34 ∷ [] }

abbrev unsent : Answer
unsent = record { headers = []; status = none; sent = [] }

tag : again.if_none_match ≡ etag_of by_length (codes "ab")
unfolding etag_of
tag = refl
