-- ===== src/Web/Passing.antt =====
-- What passes the test on paths, and the identifier of a request.
use caspaste.Prelude.{
  ◌≡◌, refl, ◌&&◌, ◌||◌, not, Bool, true, false, if◌then◌else◌, Option, none, some, [], Text,
  text_eq,
}
use caspaste.Prelude.Strings.{occurs}
use caspaste.Web.Paths.{
  unescape, dots, climbs, climbs_in_query, path_security, is_valid_uuid, request_id, or_else,
}

guards_passed :
    (a b c : Bool)
    → (if a then false else if b then false else if c then false else true) ≡ true
    → (a ≡ false) × (b ≡ false)
guards_passed true b c h = cc
guards_passed false true c h = cc
guards_passed false false c h = (refl, refl)

climbs_not :
    (o : Option Text) → climbs o ≡ false → (t : Text) × (o ≡ some t) × (occurs dots t ≡ false)
climbs_not none h = cc
climbs_not (some t) h = (t, refl, h)

-- A request that passes the test on paths has no two dots in a row in its path, nor in what its path
-- decodes to once more, which is defined.
pub path_security-decoded :
    (path query : Text)
    → path_security path query ≡ true
    → (occurs dots path ≡ false)
      × ((t : Text) × (unescape false path ≡ some t) × (occurs dots t ≡ false))
unfolding path_security
path_security-decoded path query h =
    let (a, b) =
      guards_passed (occurs dots path) (climbs (unescape false path))
        (occurs dots query && climbs_in_query (unescape true query)) h in
    (a, climbs_not (unescape false path) b)

valid_or_fresh :
    (empty valid : Bool) (fresh sent : Text)
    → is_valid_uuid sent ≡ valid
    → is_valid_uuid fresh ≡ true
    → is_valid_uuid (if empty || not valid then fresh else sent) ≡ true
valid_or_fresh true valid fresh sent e h = h
valid_or_fresh false true fresh sent e h = e
valid_or_fresh false false fresh sent e h = h

-- Whatever the headers, the identifier of a request is a UUID, if the new one is.
pub request_id-is_valid :
    (a b c fresh : Text)
    → is_valid_uuid fresh ≡ true
    → is_valid_uuid (request_id a b c fresh) ≡ true
unfolding request_id
request_id-is_valid a b c fresh h =
    let sent = or_else (or_else a b) c in
    valid_or_fresh (text_eq sent []) (is_valid_uuid sent) fresh sent refl h
