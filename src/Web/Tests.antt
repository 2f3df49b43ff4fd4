-- ===== src/Web/Tests.antt =====
-- A cookie, attempts to log in, submissions and redirects. The HMAC of these runs is the message.
use caspaste.Prelude.{
  ℕ, ◌≡◌, ◌≢◌, refl, sym, ap, ◌∙◌, text_eq_refl, Bool, true, false, none, some, [], ◌∷◌, Option,
  Text, text_eq, codes, split_on, has_prefix,
}
use caspaste.Prelude.Base64.{base64}
use caspaste.Prelude.Int.{pos}
use caspaste.Prelude.Padded.{decode, url_base64, url_decode}
use caspaste.Prelude.Strings.{equal_fold, to_lower, has_suffix, one_of}
use caspaste.Form.Request.{digits, format_int}
use caspaste.Password.Argon.{IdKey, done}
use caspaste.BruteForce.{
  BruteForceProtection, new_brute_force_protection, record_failure, get_remaining_lockout,
}
use caspaste.BruteForce.Lockout.{fail_all}
use caspaste.Web.Tokens.{validate_session_token, generate_session_token, IsSigned, signature}
use caspaste.Web.Login.{not_configured, Attempt, refused, handle_login_submit}
use caspaste.Web.Guessing.{attempt_all, handle_login_submit-locks}
use caspaste.Web.Access.{guard, is_public_path, guard-IsSigned}
use caspaste.Web.Csrf.{
  CsrfConfig, Request, csrf_middleware, is_csrf_exempt, is_safe_method, compared,
  extract_csrf_token, with_defaults,
}
use caspaste.Web.Submits.{IsSubmit, Carries, csrf_middleware-admits}
use caspaste.Web.Cors.{
  CorsConfig, CorsHeaders, cors_middleware, IsAllowed, cors_middleware-credentials, headers_for,
  explicit_origins, matches_origin,
}
use caspaste.Web.Paths.{normalized_path, url_normalize}

abbrev mac : Text → Text → Text
mac secret message = message

abbrev format : ℕ → Text
format t = codes "time"

abbrev parse : Text → Option ℕ
parse t = some 100000000000

abbrev cookie : Text
cookie = codes "dQ==.dGltZQ==.dToxMDA="

cookie_lem : generate_session_token mac format parse [] (codes "u") 100 100 ≡ cookie
unfolding generate_session_token url_base64 base64 format_int digits signature
cookie_lem = refl

guard-IsSigned_example :
    (token user : Text) × (some cookie ≡ some token)
    × IsSigned mac format parse [] 200000000000 token user
unfolding guard validate_session_token split_on url_decode decode url_base64 base64 format_int
    digits text_eq is_public_path one_of has_prefix signature
guard-IsSigned_example =
    guard-IsSigned mac format parse [] none 200000000000 (some cookie) (codes "/") [] refl refl

abbrev protection : BruteForceProtection
protection = new_brute_force_protection 2 60 0

abbrev attempt_at : ℕ → Attempt
attempt_at t = record {
  client = some (codes "10.0.0.1");
  username = codes "u";
  password = codes "p";
  redirect = [];
  tested = t;
  remaining = (t, t);
  recorded = (t, t);
  signed = (0, 0);
}

abbrev after_one : BruteForceProtection
after_one = fail_all protection (codes "10.0.0.1") ((10, 10) ∷ [])

abbrev after_two : BruteForceProtection
after_two = record_failure after_one (some (codes "10.0.0.1")) 20 20

no_key : IdKey
no_key password salt time memory threads len = none

no_bcrypt : Text → Text → Bool
no_bcrypt hash password = false

-- The second wrong attempt locks the address from 20 to 80.
handle_login_submit-locks_example :
    (attempt_all no_key no_bcrypt
        (generate_session_token mac format parse [])
        not_configured
        (attempt_at 10 ∷ [])
        (some protection)
      ≡ done (some after_one))
    × (handle_login_submit no_key no_bcrypt
          (generate_session_token mac format parse [])
          not_configured
          (some after_one)
          (attempt_at 20)
        ≡ done (some after_two, refused none))
    × (handle_login_submit no_key no_bcrypt
          (generate_session_token mac format parse [])
          not_configured
          (some after_two)
          (attempt_at 30)
        ≡ done (some after_two, refused (some (pos 50))))
unfolding text_eq record_failure fail_all get_remaining_lockout new_brute_force_protection
handle_login_submit-locks_example =
    handle_login_submit-locks no_key no_bcrypt (generate_session_token mac format parse [])
      not_configured (attempt_at 10 ∷ []) (attempt_at 20) (attempt_at 30) protection
      (codes "10.0.0.1") refl refl ((refl, refl), tt) (refl, refl) refl

abbrev csrf : CsrfConfig
csrf = record {
  enabled = true;
  token_length = 0;
  cookie_name = [];
  header_name = [];
  field_name = [];
  exempt_paths = [];
  exempt_prefixes = codes "/api/" ∷ [];
}

abbrev post : Request
post = record {
  method = codes "POST";
  path = codes "/edit/x";
  cookies = λ name. some (codes "tok");
  headers = λ name. [];
  form = λ name. codes "tok";
}

differ : (a b : Text) → text_eq a b ≡ false → a ≢ b
differ a b h e = apart (sym (text_eq_refl a) ∙ ap (text_eq a) e ∙ h)
  where
    apart : true ≢ false
    apart k = cc

is_submit : IsSubmit csrf post
unfolding has_prefix text_eq
is_submit = record {
  no_path = tt;
  no_prefix = (refl, tt);
  no_get = differ (codes "POST") (codes "GET") refl;
  no_head = differ (codes "POST") (codes "HEAD") refl;
  no_options = differ (codes "POST") (codes "OPTIONS") refl;
  no_trace = differ (codes "POST") (codes "TRACE") refl;
}

csrf_middleware-admits_example :
    (token : Text) × (token ≢ [])
    × (some (codes "tok") ≡ some token)
    × Carries (with_defaults csrf) post token
unfolding csrf_middleware is_csrf_exempt is_safe_method compared extract_csrf_token with_defaults
    text_eq has_prefix one_of
csrf_middleware-admits_example = csrf_middleware-admits csrf none post none refl is_submit refl

abbrev cors : CorsConfig
cors = record {
  enabled = true;
  allowed_origins = codes "*" ∷ codes "https://a.example" ∷ [];
  allowed_methods = [];
  allowed_headers = [];
  max_age = pos 0;
}

abbrev cors_headers : CorsHeaders
unfolding headers_for explicit_origins matches_origin equal_fold to_lower text_eq
cors_headers = headers_for cors (codes "HTTPS://A.example")

cors_middleware-credentials_example :
    IsAllowed (codes "*" ∷ codes "https://a.example" ∷ []) (codes "HTTPS://A.example")
    × (cors_headers.allow_origin ≡ some (codes "HTTPS://A.example"))
unfolding cors_middleware cors_headers headers_for explicit_origins matches_origin equal_fold
    to_lower text_eq
cors_middleware-credentials_example =
    cors_middleware-credentials cors (codes "GET") (codes "HTTPS://A.example") cors_headers refl
      refl

-- The redirect names another host.
url_normalize-host : url_normalize (codes "//evil.example/") [] ≡ some (codes "//evil.example")
unfolding url_normalize normalized_path has_suffix text_eq
url_normalize-host = refl
