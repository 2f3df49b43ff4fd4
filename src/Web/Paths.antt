-- ===== src/Web/Paths.antt =====
-- src/web/middleware.go: `URLNormalizeMiddleware`, `PathSecurityMiddleware`, `RequestIDMiddleware` and
-- `MaintenanceMiddleware`.
use caspaste.Prelude.{
  ℕ, zero, suc, ◌+◌, ◌*◌, ◌-◌, ltb, leb, ◌==◌, ◌&&◌, ◌||◌, not, Bool, true, false, if◌then◌else◌,
  Option, none, some, [], ◌∷◌, ◌++◌, Text, text_eq, codes, take, length,
}
use caspaste.Prelude.Strings.{has_suffix, occurs}

-- The address of the redirect, or `none` if the request goes on.
unfoldable pub normalized_path : Text → Option Text
unfolding has_suffix text_eq
normalized_path path =
    if text_eq path (codes "/")
    then none
    else if ltb 1 (length path) && has_suffix (codes "/") path
    then some (take (length path - 1) path)
    else none

abbrev with_query : Text → Text → Text
with_query path [] = path
with_query path (c ∷ q) = path ++ b'?' ∷ c ∷ q

abbrev moved : Text → Option Text → Option Text
moved query none = none
moved query (some path) = some (with_query path query)

unfoldable pub url_normalize : Text → Text → Option Text
unfolding normalized_path
url_normalize path query = moved query (normalized_path path)

-- 16 for a byte that is no digit.
abbrev pub unhex : ℕ → ℕ
unhex c =
    if leb b'0' c && leb c b'9'
    then c - b'0'
    else if leb b'a' c && leb c b'f'
    then c - b'a' + 10
    else if leb b'A' c && leb c b'F'
    then c - b'A' + 10
    else 16

abbrev prepend : ℕ → Option Text → Option Text
prepend c none = none
prepend c (some t) = some (c ∷ t)

-- What stands before the rest of an escaped text: nothing, `%`, or `%` and a digit.
pub data Pending : Type 0 where
  nothing percent : Pending
  digit : ℕ → Pending

abbrev plain : Bool → ℕ → ℕ
plain plus c = if plus && c == b'+' then b' ' else c

unescape_from : Bool → Pending → Text → Option Text
unescape_from plus nothing [] = some []
unescape_from plus percent [] = none
unescape_from plus (digit v) [] = none
unescape_from plus nothing (c ∷ t) =
    let escaped = unescape_from plus percent t in
    let rest = unescape_from plus nothing t in
    if c == b'%' then escaped else prepend (plain plus c) rest
unescape_from plus percent (c ∷ t) =
    let rest = unescape_from plus (digit (unhex c)) t in if ltb (unhex c) 16 then rest else none
unescape_from plus (digit v) (c ∷ t) =
    let rest = unescape_from plus nothing t in
    if ltb (unhex c) 16 then prepend (v * 16 + unhex c) rest else none

-- `url.PathUnescape`, and with `plus` `url.QueryUnescape`, which reads `+` as a space.
unfoldable pub unescape : Bool → Text → Option Text
unfolding unescape_from
unescape plus t = unescape_from plus nothing t

abbrev pub dots : Text
dots = codes ".."

abbrev pub climbs : Option Text → Bool
climbs none = true
climbs (some t) = occurs dots t

abbrev pub climbs_in_query : Option Text → Bool
climbs_in_query none = false
climbs_in_query (some t) = occurs dots t

-- Whether the request goes on.
unfoldable pub path_security : Text → Text → Bool
unfolding unescape occurs
path_security path query =
    if occurs dots path
    then false
    else if climbs (unescape false path)
    then false
    else if occurs dots query && climbs_in_query (unescape true query)
    then false
    else true

abbrev is_hex : ℕ → Bool
is_hex c = ltb (unhex c) 16

-- The rest after so many hexadecimal digits.
abbrev hex_run : ℕ → Text → Option Text
hex_run zero t = some t
hex_run (suc n) [] = none
hex_run (suc n) (c ∷ t) = let rest = hex_run n t in if is_hex c then rest else none

abbrev hyphen : Option Text → Option Text
hyphen none = none
hyphen (some []) = none
hyphen (some (c ∷ t)) = if c == b'-' then some t else none

abbrev after : ℕ → Option Text → Option Text
after n none = none
after n (some t) = hex_run n t

abbrev is_end : Option Text → Bool
is_end none = false
is_end (some []) = true
is_end (some (c ∷ t)) = false

-- `isValidUUID`.
unfoldable pub is_valid_uuid : Text → Bool
is_valid_uuid s =
    is_end
      (after 12 (hyphen (after 4 (hyphen (after 4 (hyphen (after 4 (hyphen (hex_run 8 s)))))))))

abbrev pub or_else : Text → Text → Text
or_else [] t = t
or_else (c ∷ s) t = c ∷ s

-- The headers of the request, and a new identifier.
unfoldable pub request_id : Text → Text → Text → Text → Text
unfolding is_valid_uuid text_eq
request_id request correlation trace fresh =
    let sent = or_else (or_else request correlation) trace in
    if text_eq sent [] || not (is_valid_uuid sent) then fresh else sent

-- The status that is answered in the place of the handler, where the file `.maintenance` exists.
unfoldable pub maintenance : Bool → Option ℕ
maintenance exists = if exists then some 503 else none
