-- ===== src/Web/Csrf.antt =====
-- src/web/csrf.go: the double submission of a token.
use caspaste.Prelude.{
  ℕ, ◌==◌, ◌||◌, Bool, false, if◌then◌else◌, Option, none, some, List, [], ◌∷◌, Text, text_eq,
  codes, has_prefix,
}
use caspaste.Prelude.Strings.{one_of}
use caspaste.Prelude.Padded.{url_base64}

pub record CsrfConfig : Type 0 where
  pub enabled : Bool
  pub token_length : ℕ
  pub cookie_name : Text
  pub header_name : Text
  pub field_name : Text
  pub exempt_paths : List Text
  pub exempt_prefixes : List Text

abbrev pub or_default : Text → Text → Text
or_default d [] = d
or_default d (c ∷ t) = c ∷ t

unfoldable pub with_defaults : CsrfConfig → CsrfConfig
with_defaults c = record c {
  token_length = if c.token_length == 0 then 32 else c.token_length;
  cookie_name = or_default (codes "csrf_token") c.cookie_name;
  header_name = or_default (codes "X-CSRF-Token") c.header_name;
  field_name = or_default (codes "csrf_token") c.field_name;
}

-- Cookies that are there, headers, and by name what `FormValue` gives, of the form in the body or of
-- the query; a missing one of these is empty.
pub record Request : Type 0 where
  pub method : Text
  pub path : Text
  pub cookies : Text → Option Text
  pub headers : Text → Text
  pub form : Text → Text

-- The request goes on to the handler, with the token that is set as the cookie and the header, or it
-- is answered with a status.
pub data Passage : Type 0 where
  goes_on : Option Text → Passage
  status : ℕ → Passage

unfoldable pub is_safe_method : Text → Bool
unfolding text_eq
is_safe_method m =
    text_eq m (codes "GET")
    || text_eq m (codes "HEAD")
    || text_eq m (codes "OPTIONS")
    || text_eq m (codes "TRACE")

abbrev pub begins_with : List Text → Text → Bool
begins_with [] path = false
begins_with (p ∷ ps) path = has_prefix p path || begins_with ps path

unfoldable pub is_csrf_exempt : Text → List Text → List Text → Bool
unfolding one_of has_prefix
is_csrf_exempt path exempt_paths exempt_prefixes =
    one_of exempt_paths path || begins_with exempt_prefixes path

-- The header of the configuration, the one of Angular, the field of the form.
unfoldable pub extract_csrf_token : Request → CsrfConfig → Text
extract_csrf_token r c =
    or_default (or_default (r.form c.field_name) (r.headers (codes "X-XSRF-Token")))
      (r.headers c.header_name)

-- What `rand.Read` gives, or its error.
unfoldable pub generate_csrf_token : Option Text → Option Text
unfolding url_base64
generate_csrf_token none = none
generate_csrf_token (some bytes) = some (url_base64 bytes)

abbrev pub issued : Option Text → Passage
issued none = status 500
issued (some token) = goes_on (some token)

abbrev pub reused : Option Text → Option Text → Passage
reused bytes none = issued (generate_csrf_token bytes)
reused bytes (some []) = issued (generate_csrf_token bytes)
reused bytes (some (c ∷ t)) = goes_on (some (c ∷ t))

abbrev pub cookie_value : Option Text → Text
cookie_value none = []
cookie_value (some t) = t

-- `cookieToken` and `requestToken`.
unfoldable pub compared : Text → Text → Passage
unfolding text_eq
compared [] sent = status 403
compared (c ∷ t) [] = status 403
compared (c ∷ t) (d ∷ s) = if text_eq (c ∷ t) (d ∷ s) then goes_on none else status 403

abbrev checked : CsrfConfig → Option Text → Request → Passage
checked c bytes r =
    if is_csrf_exempt r.path c.exempt_paths c.exempt_prefixes
    then goes_on none
    else if is_safe_method r.method
    then reused bytes (r.cookies c.cookie_name)
    else compared (cookie_value (r.cookies c.cookie_name)) (extract_csrf_token r c)

unfoldable pub csrf_middleware : CsrfConfig → Option Text → Request → Passage
unfolding generate_csrf_token is_csrf_exempt is_safe_method compared extract_csrf_token
    with_defaults
csrf_middleware c bytes r = if c.enabled then checked (with_defaults c) bytes r else goes_on none
