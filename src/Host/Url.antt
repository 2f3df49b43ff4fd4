-- ===== src/Host/Url.antt =====
-- `GetHost`, `GetProtocol` and `BuildPasteURL`.
use caspaste.Prelude.{
  ◌&&◌, ◌||◌, Bool, if◌then◌else◌, Option, none, some, List, [], ◌∷◌, ◌++◌, Text, text_eq, codes,
  split_on,
}
use caspaste.Validation.Bools.{is_truthy}
use caspaste.Host.Headers.{Request, forwarded_value, first_listed}

host_of : Option Text → Text → Text → Text
unfolding first_listed
host_of (some h) x_host host = h
host_of none [] host = host
host_of none (c ∷ x_host) host = first_listed (c ∷ x_host)

unfoldable pub get_host : Request → Text
unfolding host_of forwarded_value
get_host req =
    host_of (forwarded_value (codes "host=") req.headers.forwarded) req.headers.x_forwarded_host
      req.host

-- The scheme without a header of the proxy.
unfoldable pub direct_scheme : Request → Text
unfolding text_eq
direct_scheme req =
    if req.tls
    then codes "https"
    else if text_eq req.url_scheme []
    then codes "http"
    else req.url_scheme

proto_of : Option Text → Text → Request → Text
unfolding first_listed is_truthy direct_scheme text_eq
proto_of (some p) x_proto req = p
proto_of none (c ∷ x_proto) req = first_listed (c ∷ x_proto)
proto_of none [] req =
    if is_truthy req.headers.x_forwarded_ssl
    then codes "https"
    else if text_eq req.headers.x_scheme []
    then direct_scheme req
    else req.headers.x_scheme

unfoldable pub get_protocol : Request → Text
unfolding proto_of forwarded_value
get_protocol req =
    proto_of (forwarded_value (codes "proto=") req.headers.forwarded) req.headers.x_forwarded_proto
      req

abbrev pub is_default : Text → Text → Bool
is_default proto port =
    text_eq proto (codes "http") && text_eq port (codes "80")
    || (text_eq proto (codes "https") && text_eq port (codes "443"))

-- The host without a port that is the one of the protocol; the list is the host's parts by colons.
abbrev pub shown_host : Text → Text → List Text → Text
shown_host proto host (name ∷ port ∷ []) = if is_default proto port then name else host
shown_host proto host _ = host

unfoldable pub build_paste_url : Request → Text → Text
unfolding get_host get_protocol split_on
build_paste_url req paste_id =
    get_protocol req
    ++ (codes "://"
        ++ (shown_host (get_protocol req) (get_host req) (split_on b':' (get_host req))
            ++ b'/' ∷ paste_id))
