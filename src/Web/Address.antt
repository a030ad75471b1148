-- ===== src/Web/Address.antt =====
-- pkg/web/web.go: the host and the scheme of a request, and its base address. `Header.Get` is the
-- function `header` of the request, which returns the empty text for a header that is not set.
mod Examples
use goddd.Common.{◌≡◌, refl, ap, ◌∙◌, Bool, true, false, not, List, [], ◌∷◌, ◌++◌, if◌then◌else◌}
use goddd.Common.Text.{
  Bytes, codes, same, split, lacks, split-append, split_of_lacks, split_nonempty,
}

pub record Request : Type 0 where
  pub header : Bytes → Bytes
  pub host : Bytes
  pub url_scheme : Bytes
  pub is_tls : Bool

-- The first part if there are two, and the text as it was if not.
abbrev pub first_of_two : List Bytes → Bytes → Bytes
first_of_two [] host = host
first_of_two (w ∷ []) host = host
first_of_two (w ∷ v ∷ []) host = w
first_of_two (w ∷ v ∷ u ∷ ws) host = host

pub get_host : Request → Bytes
get_host r =
    let v = r.header (codes "X-Forwarded-Host") in
    if not (same v []) then v else first_of_two (split b':' r.host) r.host

pub get_scheme : Request → Bytes
get_scheme r =
    let v = r.header (codes "X-Forwarded-Scheme") in
    if not (same v [])
    then v
    else if not (same r.url_scheme [])
    then r.url_scheme
    else if r.is_tls
    then codes "https"
    else codes "http"

pub get_base_url : Request → Bytes
unfolding get_scheme
get_base_url r =
    let v = r.header (codes "X-Forwarded-Prefix") in
    if not (same v []) then v else get_scheme r ++ (codes "://" ++ r.host)

-- Without a forwarded host, `GetHost` of a host with a port is the host, if neither has a colon.
pub get_host_port :
    (r : Request) (host port : Bytes)
    → r.header (codes "X-Forwarded-Host") ≡ []
    → r.host ≡ host ++ (b':' ∷ port)
    → lacks b':' host ≡ true
    → lacks b':' port ≡ true
    → get_host r ≡ host
unfolding get_host same
get_host_port r host port h e p q =
    rw (h, get_host)
      (rw e (rw (split-append b':' host port p) (rw (split_of_lacks b':' port q) refl)))

-- Without a forwarded host, a host with two colons or more, as an IPv6 address has with its port or
-- without, is returned as it is, its port included.
pub get_host_colons :
    (r : Request) (a b c : Bytes)
    → r.header (codes "X-Forwarded-Host") ≡ []
    → r.host ≡ a ++ (b':' ∷ (b ++ (b':' ∷ c)))
    → lacks b':' a ≡ true
    → lacks b':' b ≡ true
    → get_host r ≡ r.host
unfolding get_host same
get_host_colons r a b c h e p q =
    rw (h, get_host)
      (ap (λ l. first_of_two l r.host)
          (ap (split b':') e
            ∙ split-append b':' a (b ++ (b':' ∷ c)) p
            ∙ ap (◌∷◌ a) (split-append b':' b c q))
        ∙ (let (w, ws, parts) = split_nonempty b':' c in
            ap (λ l. first_of_two (a ∷ b ∷ l) r.host) parts))
