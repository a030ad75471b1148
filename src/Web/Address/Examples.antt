-- ===== src/Web/Address/Examples.antt =====
-- Requests to a name with a port, and to an IPv6 address with a port.
use goddd.Common.{true, ◌≡◌, refl, false, []}
use goddd.Common.Text.{same, Bytes, codes, lacks}
use goddd.Web.Address.{Request, get_base_url, get_scheme}

abbrev to_host : Bytes → Request
to_host host = record { header = λ name. []; host = host; url_scheme = []; is_tls = false }

base_url : get_base_url (to_host (codes "a.com:80")) ≡ codes "http://a.com:80"
unfolding get_base_url get_scheme same
base_url = refl

name_lacks : lacks b':' (codes "a.com") ≡ true
unfolding lacks
name_lacks = refl

port_lacks : lacks b':' (codes "80") ≡ true
unfolding lacks
port_lacks = refl

bracket_lacks : lacks b':' (codes "[") ≡ true
unfolding lacks
bracket_lacks = refl

none_lacks : lacks b':' [] ≡ true
unfolding lacks
none_lacks = refl
