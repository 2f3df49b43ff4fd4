-- ===== src/Web/Submits.antt =====
-- Which requests pass the test for forged submissions.
use caspaste.Prelude.{
  ℕ, ◌≡◌, ◌≢◌, ◌⊎◌, inl, inr, refl, sym, ◌∙◌, Bool-cases, Bool, true, false, if◌then◌else◌, Option,
  none, some, List, [], ◌∷◌, Text, All, codes, has_prefix, text_eq, text_eq_iff, text_eq_refl,
}
use caspaste.Prelude.Base64.{base64}
use caspaste.Prelude.Strings.{one_of}
use caspaste.Prelude.Padded.{url_base64}
use caspaste.Web.Csrf.{
  CsrfConfig, with_defaults, or_default, begins_with, Request, Passage, goes_on, status,
  is_safe_method, is_csrf_exempt, extract_csrf_token, generate_csrf_token, reused, cookie_value,
  compared, csrf_middleware,
}

compared-goes_on : (a b : Text) (t : Option Text) → compared a b ≡ goes_on t → (a ≢ []) × (b ≡ a)
unfolding compared
compared-goes_on [] b t h = cc
compared-goes_on (c ∷ a) [] t h = cc
compared-goes_on (c ∷ a) (d ∷ b) t h =
    let same : text_eq (c ∷ a) (d ∷ b) ≡ true = passed (text_eq (c ∷ a) (d ∷ b)) h in
    ((λ e. cc), sym ((text_eq_iff (c ∷ a) (d ∷ b)).0 same))
  where
    passed : (b : Bool) → (if b then goes_on none else status 403) ≡ goes_on t → b ≡ true
    passed true e = refl
    passed false e = cc

compared_same : (a : Text) → a ≢ [] → compared a a ≡ goes_on none
unfolding compared
compared_same [] n = absurd (n refl)
compared_same (c ∷ a) n = rw (text_eq_refl (c ∷ a)) refl

-- A method that changes state, on a path that is not exempt.
pub record IsChange (c : CsrfConfig) (r : Request) : Type 0 where
  pub not_exempt :
      is_csrf_exempt r.path (with_defaults c).exempt_paths (with_defaults c).exempt_prefixes ≡ false
  pub not_safe : is_safe_method r.method ≡ false

change_lem :
    (c : CsrfConfig) (bytes : Option Text) (r : Request)
    → c.enabled ≡ true
    → IsChange c r
    → csrf_middleware c bytes r
      ≡ compared
          (cookie_value (r.cookies (with_defaults c).cookie_name))
          (extract_csrf_token r (with_defaults c))
unfolding csrf_middleware
change_lem c bytes r e i = rw e (rw i.not_exempt (rw i.not_safe refl))

safe_lem :
    (c : CsrfConfig) (bytes : Option Text) (r : Request)
    → c.enabled ≡ true
    → is_csrf_exempt r.path (with_defaults c).exempt_paths (with_defaults c).exempt_prefixes ≡ false
    → is_safe_method r.method ≡ true
    → csrf_middleware c bytes r ≡ reused bytes (r.cookies (with_defaults c).cookie_name)
unfolding csrf_middleware
safe_lem c bytes r e x safe = rw e (rw x (rw safe refl))

cookie-filled : (o : Option Text) → cookie_value o ≢ [] → o ≡ some (cookie_value o)
cookie-filled none n = absurd (n refl)
cookie-filled (some t) n = refl

-- A request that needs a token: its path is not one of the exempt ones and begins with none of the
-- exempt prefixes, and its method is not one of the four that only read.
pub record IsSubmit (c : CsrfConfig) (r : Request) : Type 0 where
  pub no_path : All (λ p. p ≢ r.path) c.exempt_paths
  pub no_prefix : All (λ p. has_prefix p r.path ≡ false) c.exempt_prefixes
  pub no_get : r.method ≢ codes "GET"
  pub no_head : r.method ≢ codes "HEAD"
  pub no_options : r.method ≢ codes "OPTIONS"
  pub no_trace : r.method ≢ codes "TRACE"

-- Where the token stands: in one of the two headers, or as the value of the field.
abbrev pub Carries : CsrfConfig → Request → Text → Type 0
Carries c r token =
    (r.headers c.header_name ≡ token)
    ⊎ ((r.headers (codes "X-XSRF-Token") ≡ token) ⊎ (r.form c.field_name ≡ token))

text_eq-ne : (a b : Text) → a ≢ b → text_eq a b ≡ false
text_eq-ne a b n = elim (Bool-cases (text_eq a b)) [
  | inl e ↦ absurd (n ((text_eq_iff a b).0 e))
  | inr e ↦ e
]

one_of-none : (ps : List Text) (path : Text) → All (λ p. p ≢ path) ps → one_of ps path ≡ false
unfolding one_of
one_of-none [] path h = refl
one_of-none (p ∷ ps) path h = rw (text_eq-ne path p (λ e. h.0 (sym e))) (one_of-none ps path h.1)

begins_with-none :
    (ps : List Text) (path : Text)
    → All (λ p. has_prefix p path ≡ false) ps
    → begins_with ps path ≡ false
begins_with-none [] path h = refl
begins_with-none (p ∷ ps) path h = rw h.0 (begins_with-none ps path h.1)

IsSubmit-IsChange : (c : CsrfConfig) (r : Request) → IsSubmit c r → IsChange c r
unfolding is_csrf_exempt is_safe_method with_defaults
IsSubmit-IsChange c r s = record {
  not_exempt =
      rw (one_of-none c.exempt_paths r.path s.no_path)
        (begins_with-none c.exempt_prefixes r.path s.no_prefix);
  not_safe = rw (text_eq-ne r.method (codes "GET") s.no_get) (
      rw (text_eq-ne r.method (codes "HEAD") s.no_head) (
        rw (text_eq-ne r.method (codes "OPTIONS") s.no_options)
          (text_eq-ne r.method (codes "TRACE") s.no_trace)));
}

or_default-cases : (d t : Text) → (or_default d t ≡ t) ⊎ (or_default d t ≡ d)
or_default-cases d [] = inr refl
or_default-cases d (c ∷ t) = inl refl

extract_csrf_token-Carries :
    (c : CsrfConfig) (r : Request) (token : Text)
    → extract_csrf_token r c ≡ token
    → Carries c r token
unfolding extract_csrf_token
extract_csrf_token-Carries c r token h =
    let field = r.form c.field_name in
    let xsrf = r.headers (codes "X-XSRF-Token") in
    elim (or_default-cases (or_default field xsrf) (r.headers c.header_name)) [
      | inl e ↦ inl (sym e ∙ h)
      | inr e ↦ elim (or_default-cases field xsrf) [
        | inl f ↦ inr (inl (sym f ∙ sym e ∙ h))
        | inr f ↦ inr (inr (sym f ∙ sym e ∙ h))
      ]
    ]

-- Where the test is enabled, a request whose method is not GET, HEAD, OPTIONS or TRACE, and whose
-- path is neither an exempt one nor begins with an exempt prefix, gets to its handler only with a
-- cookie that is not empty and the same token in one of the two headers, or as the value of the
-- field in the form or the query.
pub csrf_middleware-admits :
    (c : CsrfConfig) (bytes : Option Text) (r : Request) (t : Option Text)
    → c.enabled ≡ true
    → IsSubmit c r
    → csrf_middleware c bytes r ≡ goes_on t
    → (token : Text) × (token ≢ [])
      × (r.cookies (with_defaults c).cookie_name ≡ some token)
      × Carries (with_defaults c) r token
csrf_middleware-admits c bytes r t e s h =
    let cookie = r.cookies (with_defaults c).cookie_name in
    let (filled, same) =
      compared-goes_on (cookie_value cookie) (extract_csrf_token r (with_defaults c)) t
        (sym (change_lem c bytes r e (IsSubmit-IsChange c r s)) ∙ h) in
    (
      cookie_value cookie,
      filled,
      cookie-filled cookie filled,
      extract_csrf_token-Carries (with_defaults c) r (cookie_value cookie) same,
    )

url_base64-filled : (b : ℕ) (bs : Text) → url_base64 (b ∷ bs) ≢ []
unfolding url_base64 base64
url_base64-filled b [] e = cc
url_base64-filled b (c ∷ []) e = cc
url_base64-filled b (c ∷ d ∷ bs) e = cc

goes_on_inj : {a b : Text} → ◌≡◌ {A = Passage} (goes_on (some a)) (goes_on (some b)) → a ≡ b
goes_on_inj e = cc

reused-filled :
    (b : ℕ) (bs : Text) (o : Option Text) (token : Text)
    → reused (some (b ∷ bs)) o ≡ goes_on (some token)
    → token ≢ []
unfolding generate_csrf_token
reused-filled b bs none token h = λ e. url_base64-filled b bs (goes_on_inj h ∙ e)
reused-filled b bs (some []) token h = λ e. url_base64-filled b bs (goes_on_inj h ∙ e)
reused-filled b bs (some (c ∷ t)) token h = λ e. filled (goes_on_inj h ∙ e)
  where
    filled : (c ∷ t) ≢ []
    filled e = cc

-- The token that a safe request is given opens the way to a request that changes state: one that
-- sends it as its cookie and in its header or its form gets to the handler. The random bytes were
-- read, and are not none at all.
pub csrf_middleware-round_trip :
    (c : CsrfConfig) (b : ℕ) (bs : Text) (later : Option Text) (r r' : Request) (token : Text)
    → c.enabled ≡ true
    → is_csrf_exempt r.path (with_defaults c).exempt_paths (with_defaults c).exempt_prefixes ≡ false
    → is_safe_method r.method ≡ true
    → csrf_middleware c (some (b ∷ bs)) r ≡ goes_on (some token)
    → IsChange c r'
    → r'.cookies (with_defaults c).cookie_name ≡ some token
    → extract_csrf_token r' (with_defaults c) ≡ token
    → csrf_middleware c later r' ≡ goes_on none
csrf_middleware-round_trip c b bs later r r' token e x safe h i cookie sent =
    let given = sym (safe_lem c (some (b ∷ bs)) r e x safe) ∙ h in
    let filled = reused-filled b bs (r.cookies (with_defaults c).cookie_name) token given in
    change_lem c later r' e i ∙ rw cookie (rw sent (compared_same token filled))
