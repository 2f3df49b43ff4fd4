-- ===== src/Host/Ports.antt =====
-- The URL of a paste, for a host with a port.
use caspaste.Prelude.{
  ◌≡◌, ap, ◌∙◌, true, if◌then◌else◌, ◌∷◌, ◌++◌, Text, codes, lacks, split_on, split_on-append,
  split_on-lacks,
}
use caspaste.Host.Headers.{Request}
use caspaste.Host.Url.{get_host, get_protocol, build_paste_url, shown_host, is_default}

-- If the host is a name and a port without further colons, the URL of a paste is made of the
-- protocol, the name and the identifier, and between the last two the port, unless it is 80 for
-- `http` or 443 for `https`.
pub build_paste_url-port :
    (req : Request) (name port paste_id : Text)
    → lacks b':' name ≡ true
    → lacks b':' port ≡ true
    → get_host req ≡ name ++ b':' ∷ port
    → build_paste_url req paste_id
      ≡ get_protocol req
        ++ (codes "://"
            ++ ((if is_default (get_protocol req) port then name else name ++ b':' ∷ port)
                ++ b'/' ∷ paste_id))
unfolding build_paste_url
build_paste_url-port req name port paste_id ln lp h =
    ap
      (λ host.
        get_protocol req
        ++ (codes "://"
            ++ (shown_host (get_protocol req) host (split_on b':' host) ++ b'/' ∷ paste_id)))
      h
    ∙ ap
        (λ parts.
          get_protocol req
          ++ (codes "://"
              ++ (shown_host (get_protocol req) (name ++ b':' ∷ port) parts ++ b'/' ∷ paste_id)))
        (split_on-append b':' name port ln ∙ ap (◌∷◌ name) (split_on-lacks b':' port lp))
