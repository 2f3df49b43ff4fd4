-- ===== src/Web/Access.antt =====
-- src/web/auth.go: `IsAuthRequired`, `requireAuth` and `IsPublicPath`, and the beginning of `Handler`
-- in src/web/web.go, which asks them.
use caspaste.Prelude.{
  ℕ, ◌≡◌, refl, ◌&&◌, ◌||◌, not, Bool, true, false, if◌then◌else◌, Option, none, some, List, [],
  ◌∷◌, ◌++◌, Text, text_eq, codes, has_prefix,
}
use caspaste.Prelude.Strings.{one_of}
use caspaste.Web.Tokens.{
  is_authenticated, validate_session_token, IsSigned, validate_session_token-IsSigned,
}
use caspaste.Web.Login.{PasswordFile, not_configured, missing, present}

unfoldable pub is_auth_required : Bool → PasswordFile → Bool
is_auth_required true file = false
is_auth_required false not_configured = false
is_auth_required false missing = false
is_auth_required false (present file) = true

abbrev public_paths : List Text
public_paths =
    codes "/login"
    ∷ codes "/logout"
    ∷ codes "/server/auth/login"
    ∷ codes "/server/auth/logout"
    ∷ codes "/healthz"
    ∷ codes "/style.css"
    ∷ codes "/main.js"
    ∷ codes "/toast.js"
    ∷ codes "/nav.js"
    ∷ codes "/history.js"
    ∷ codes "/code.js"
    ∷ codes "/paste.js"
    ∷ codes "/manifest.json"
    ∷ codes "/sw.js"
    ∷ codes "/robots.txt"
    ∷ codes "/sitemap.xml"
    ∷ codes "/favicon.ico"
    ∷ codes "/.well-known/security.txt"
    ∷ codes "/openapi"
    ∷ codes "/openapi.json"
    ∷ []

abbrev public_prefixes : List Text
public_prefixes =
    codes "/server/auth"
    ∷ codes "/auth"
    ∷ codes "/server/about"
    ∷ codes "/about"
    ∷ codes "/docs"
    ∷ codes "/terms"
    ∷ []

-- The path is one of these, or lies below it.
abbrev is_below : List Text → Text → Bool
is_below [] path = false
is_below (p ∷ ps) path = text_eq path p || has_prefix (p ++ b'/' ∷ []) path || is_below ps path

unfoldable pub is_public_path : Text → Bool
unfolding one_of has_prefix text_eq
is_public_path path = one_of public_paths path || is_below public_prefixes path

abbrev with_query : Text → Text → Text
with_query path [] = path
with_query path (c ∷ q) = path ++ b'?' ∷ c ∷ q

module _ (mac : Text → Text → Text) (format : ℕ → Text) (parse : Text → Option ℕ)
    (secret : Text) where
  -- Where the request is sent instead, or `none` if it goes on.
  unfoldable pub require_auth : Bool → PasswordFile → ℕ → Option Text → Text → Text → Option Text
  unfolding is_auth_required is_authenticated
  require_auth public file now cookie path query =
      if not (is_auth_required public file)
      then none
      else if is_authenticated mac format parse secret now cookie
      then none
      else some (codes "/server/auth/login?redirect=" ++ with_query path query)

  -- The test that `Handler` makes before every page.
  unfoldable pub guard : Bool → PasswordFile → ℕ → Option Text → Text → Text → Option Text
  unfolding require_auth is_public_path
  guard public file now cookie path query =
      if is_auth_required public file && not (is_public_path path)
      then require_auth public file now cookie path query
      else none

  is_authenticated-IsSigned :
      (now : ℕ) (cookie : Option Text)
      → is_authenticated mac format parse secret now cookie ≡ true
      → (token user : Text) × (cookie ≡ some token)
        × IsSigned mac format parse secret now token user
  unfolding is_authenticated
  is_authenticated-IsSigned now none h = cc
  is_authenticated-IsSigned now (some token) h =
      of_user (validate_session_token mac format parse secret now token) refl h
    where
      of_user :
          (found : Option Text)
          → validate_session_token mac format parse secret now token ≡ found
          → (elim found [ none ↦ false | some user ↦ true ]) ≡ true
          → (t user : Text) × (◌≡◌ {A = Option Text} (some token) (some t))
            × IsSigned mac format parse secret now t user
      of_user none e k = cc
      of_user (some user) e k = (
        token,
        user,
        refl,
        validate_session_token-IsSigned mac format parse secret now token user e,
      )

  -- On a private instance with a file of passwords, a request for a path that is not public gets
  -- past the test only with a cookie that carries the MAC, under the secret of the server, of a user
  -- and of a second that began less than a day and a second ago.
  pub guard-IsSigned :
      (file : Option Text) (now : ℕ) (cookie : Option Text) (path query : Text)
      → is_public_path path ≡ false
      → guard false (present file) now cookie path query ≡ none
      → (token user : Text) × (cookie ≡ some token)
        × IsSigned mac format parse secret now token user
  unfolding guard
  guard-IsSigned file now cookie path query private h =
      is_authenticated-IsSigned now cookie
        (passes (is_authenticated mac format parse secret now cookie) (rw private at h))
    where
      passes :
          (b : Bool)
          → (if b
              then none
              else some (codes "/server/auth/login?redirect=" ++ with_query path query))
            ≡ none
          → b ≡ true
      passes true e = refl
      passes false e = cc
