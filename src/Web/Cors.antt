-- ===== src/Web/Cors.antt =====
-- src/web/middleware.go: `CORSMiddleware`.
use caspaste.Prelude.{
  ltb, ◌≡◌, refl, sym, ap, ◌∙◌, inl, inr, Bool-cases, ◌&&◌, ◌||◌, not, Bool, true, false,
  if◌then◌else◌, Option, none, some, List, [], ◌∷◌, Text, text_eq, text_eq_refl, codes, join_with,
  arith,
}
use caspaste.Prelude.Int.{ℤ, pos, negsuc}
use caspaste.Prelude.Strings.{equal_fold, one_of}
use caspaste.Form.Request.{format_int}

pub record CorsConfig : Type 0 where
  pub enabled : Bool
  pub allowed_origins : List Text
  pub allowed_methods : List Text
  pub allowed_headers : List Text
  pub max_age : ℤ

abbrev default_methods : Text
default_methods = codes "GET, POST, PUT, PATCH, DELETE, OPTIONS"

abbrev default_headers : Text
default_headers =
    codes
      "Content-Type, Accept, X-Requested-With, Authorization, X-API-Key, X-Api-Key, API-Key, ApiKey, X-Auth-Token, X-Access-Token, X-Token, Token, X-CSRF-Token, X-XSRF-Token, X-Session-ID, X-Service-Token, X-Internal-Token"

abbrev listed : Text → List Text → Text
listed default [] = default
listed default (m ∷ ms) = join_with (codes ", ") (m ∷ ms)

abbrev age_text : ℤ → Text
age_text (negsuc n) = codes "86400"
age_text (pos n) = if ltb 0 n then format_int n else codes "86400"

-- The headers that are set: the origin that is allowed, with the mark for credentials and `Vary`.
pub record CorsHeaders : Type 0 where
  pub allow_origin : Option Text
  pub allow_credentials : Bool
  pub allow_methods : Text
  pub allow_headers : Text
  pub max_age : Text

abbrev is_explicit : Text → Bool
is_explicit o = not (text_eq o []) && not (text_eq o (codes "*"))

-- `explicit`: the origins that are neither empty nor `*`.
unfoldable pub explicit_origins : List Text → List Text
unfolding text_eq
explicit_origins [] = []
explicit_origins (o ∷ os) =
    let rest = explicit_origins os in if is_explicit o then o ∷ rest else rest

-- The loop over them.
unfoldable pub matches_origin : Text → List Text → Bool
unfolding equal_fold
matches_origin origin [] = false
matches_origin origin (o ∷ os) = equal_fold origin o || matches_origin origin os

abbrev when_matched : Text → Bool → Option Text × Bool
when_matched origin true = (some origin, true)
when_matched origin false = (none, false)

abbrev origin_headers : Text → List Text → Option Text × Bool
origin_headers origin [] = (some (codes "*"), false)
origin_headers origin (o ∷ os) = when_matched origin (matches_origin origin (o ∷ os))

unfoldable pub headers_for : CorsConfig → Text → CorsHeaders
unfolding explicit_origins matches_origin format_int join_with
headers_for c origin =
    let (allowed, credentials) = origin_headers origin (explicit_origins c.allowed_origins) in
    record {
      allow_origin = allowed;
      allow_credentials = credentials;
      allow_methods = listed default_methods c.allowed_methods;
      allow_headers = listed default_headers c.allowed_headers;
      max_age = age_text c.max_age;
    }

-- The headers, if any are set, and whether the request goes on.
unfoldable pub cors_middleware : CorsConfig → Text → Text → Option CorsHeaders × Bool
unfolding headers_for text_eq
cors_middleware c method origin =
    if c.enabled
    then (some (headers_for c origin), not (text_eq method (codes "OPTIONS")))
    else (none, true)

-- An origin of the list that is neither empty nor `*`, and is that of the request, whatever its case.
pub record IsAllowed (os : List Text) (origin : Text) : Type 0 where
  pub allowed : Text
  pub listed_is : one_of os allowed ≡ true
  pub filled : text_eq allowed [] ≡ false
  pub not_star : text_eq allowed (codes "*") ≡ false
  pub same : equal_fold origin allowed ≡ true

IsAllowed-cons :
    (o : Text) (os : List Text) (origin : Text) → IsAllowed os origin → IsAllowed (o ∷ os) origin
unfolding one_of
IsAllowed-cons o os origin a = record {
  allowed = a.allowed;
  listed_is = ground (arith, a.listed_is);
  filled = a.filled;
  not_star = a.not_star;
  same = a.same;
}

explicit-IsAllowed :
    (origin : Text) (os : List Text)
    → matches_origin origin (explicit_origins os) ≡ true
    → IsAllowed os origin
unfolding matches_origin explicit_origins one_of
explicit-IsAllowed origin [] h = cc
explicit-IsAllowed origin (o ∷ os) h = elim (Bool-cases (is_explicit o)) [
  | inl e ↦ elim (Bool-cases (equal_fold origin o)) [
    | inl same ↦ record {
      allowed = o;
      listed_is = rw (text_eq_refl o) refl;
      filled = ground (arith, e);
      not_star = ground (arith, e);
      same = same;
    }
    | inr other ↦
        IsAllowed-cons o os origin (explicit-IsAllowed origin os (ground (arith, e, other, h)))
  ]
  | inr e ↦ IsAllowed-cons o os origin (explicit-IsAllowed origin os (ground (arith, e, h)))
]

origin_headers-allowed :
    (origin : Text) (os : List Text)
    → (origin_headers origin os).1 ≡ true
    → (matches_origin origin os ≡ true) × ((origin_headers origin os).0 ≡ some origin)
origin_headers-allowed origin [] h = cc
origin_headers-allowed origin (o ∷ os) h = by_match (matches_origin origin (o ∷ os)) h
  where
    by_match :
        (b : Bool)
        → (when_matched origin b).1 ≡ true
        → (b ≡ true) × ((when_matched origin b).0 ≡ some origin)
    by_match true e = (refl, refl)
    by_match false e = cc

some_inj : {a b : CorsHeaders} → ◌≡◌ {A = Option CorsHeaders} (some a) (some b) → a ≡ b
some_inj e = cc

-- Credentials are allowed only to the origin of the request, and only if it is one of the configured
-- origins, of which the empty one and `*` do not count.
pub cors_middleware-credentials :
    (c : CorsConfig) (method origin : Text) (h : CorsHeaders)
    → (cors_middleware c method origin).0 ≡ some h
    → h.allow_credentials ≡ true
    → IsAllowed c.allowed_origins origin × (h.allow_origin ≡ some origin)
unfolding cors_middleware headers_for
cors_middleware-credentials c method origin h e cred = by_enabled c.enabled e
  where
    by_enabled :
        (b : Bool)
        → (if◌then◌else◌ {A = Option CorsHeaders × Bool} b
            (some (headers_for c origin), not (text_eq method (codes "OPTIONS")))
            (none, true)).0
          ≡ some h
        → IsAllowed c.allowed_origins origin × (h.allow_origin ≡ some origin)
    by_enabled false k = cc
    by_enabled true k =
        let same : headers_for c origin ≡ h = some_inj k in
        let (matched, sent) =
          origin_headers-allowed origin (explicit_origins c.allowed_origins)
            (ap (λ (r : CorsHeaders). r.allow_credentials) same ∙ cred) in
        (
          explicit-IsAllowed origin c.allowed_origins matched,
          sym (ap (λ (r : CorsHeaders). r.allow_origin) same) ∙ sent,
        )
