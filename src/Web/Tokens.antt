-- ===== src/Web/Tokens.antt =====
-- src/web/auth.go: the token in the cookie of a login. `mac` is the HMAC with SHA-256, `format` and
-- `parse` are `Time.Format` and `time.Parse` for RFC 3339: what is written has whole seconds, what is
-- read is an instant in nanoseconds, since a fraction of a second may stand in the text.
use caspaste.Prelude.{
  ℕ, ◌+◌, ◌*◌, ◌/◌, ◌<◌, ◌≡◌, refl, ap, ◌∙◌, ltb, Bool, true, false, if◌then◌else◌, Option, none,
  some, List, [], ◌∷◌, ◌++◌, Text, text_eq, text_eq_iff, split_on, split_on-append, split_on-lacks,
  lacks, arith,
}
use caspaste.Prelude.Base64.{AreBytes}
use caspaste.Prelude.Padded.{url_base64, url_decode, url_decode-url_base64}
use caspaste.Form.Request.{format_int}

abbrev pub session_duration : ℕ
session_duration = 24 * 3600

-- The instant is longer ago than the duration, in nanoseconds.
abbrev pub is_over : ℕ → ℕ → Bool
is_over instant now = ltb (instant + session_duration * 1000000000) now

-- `Time.Unix`.
abbrev pub unix : ℕ → ℕ
unix instant = instant / 1000000000

module _ (mac : Text → Text → Text) (format : ℕ → Text) (parse : Text → Option ℕ)
    (secret : Text) where
  -- `username + ":" + timestamp` under the secret.
  unfoldable pub signature : Text → ℕ → Text
  unfolding format_int url_base64
  signature user timestamp = url_base64 (mac secret (user ++ b':' ∷ format_int timestamp))

  -- The clock is read for the signature, and again for the token.
  unfoldable pub generate_session_token : Text → ℕ → ℕ → Text
  unfolding signature url_base64
  generate_session_token user now now' =
      url_base64 user ++ b'.' ∷ (url_base64 (format now') ++ b'.' ∷ signature user now)

  check_session : Text → ℕ → Option Text → Option ℕ → Option Text
  unfolding text_eq
  check_session sent now none timestamp = none
  check_session sent now (some user) none = none
  check_session sent now (some user) (some instant) =
      if is_over instant now
      then none
      else if text_eq sent (signature user (unix instant))
      then some user
      else none

  abbrev parsed : Option Text → Option ℕ
  parsed none = none
  parsed (some t) = parse t

  check_parts : ℕ → List Text → Option Text
  unfolding check_session url_decode
  check_parts now (user ∷ time ∷ sent ∷ []) =
      check_session sent now (url_decode user) (parsed (url_decode time))
  check_parts now _ = none

  -- The user of the token, at `now`.
  unfoldable pub validate_session_token : ℕ → Text → Option Text
  unfolding check_parts
  validate_session_token now token = check_parts now (split_on b'.' token)

  -- `isAuthenticated`, of the cookie's value.
  unfoldable pub is_authenticated : ℕ → Option Text → Bool
  unfolding validate_session_token
  is_authenticated now none = false
  is_authenticated now (some token) = elim (validate_session_token now token) [
    | none ↦ false
    | some user ↦ true
  ]

  unix-seconds : (t : ℕ) → unix (t * 1000000000) ≡ t
  unix-seconds t = omega arith

  -- The user of a token, if it is not too old and the signature for its time is that of the login's.
  answer-generate :
      (user : Text) (t t' now : ℕ)
      → AreBytes user
      → AreBytes (format t')
      → AreBytes (mac secret (user ++ b':' ∷ format_int t))
      → parse (format t') ≡ some (t' * 1000000000)
      → validate_session_token now (generate_session_token user t t') ≡ (
          if is_over (t' * 1000000000) now
          then none
          else if text_eq (signature user t) (signature user t')
          then some user
          else none)
  unfolding validate_session_token generate_session_token check_session
  answer-generate user t t' now bu bt bm rt =
      let u = url_decode-url_base64 user bu in
      let d = url_decode-url_base64 (format t') bt in
      let s : lacks b'.' (signature user t) ≡ true =
        (url_decode-url_base64 (mac secret (user ++ b':' ∷ format_int t)) bm).1 in
      let parts : split_on b'.' (generate_session_token user t t')
          ≡ url_base64 user ∷ url_base64 (format t') ∷ signature user t ∷ [] =
        split_on-append b'.' (url_base64 user) _ u.1
        ∙ ap (◌∷◌ (url_base64 user)) (
            split_on-append b'.' (url_base64 (format t')) (signature user t) d.1
            ∙ ap (◌∷◌ (url_base64 (format t'))) (split_on-lacks b'.' (signature user t) s)) in
      ap (check_parts now) parts ∙ rw u.0 (rw d.0 (rw rt (rw (unix-seconds t') refl)))

  -- Where the second ends between the two readings of the clock, the token is refused, unless the
  -- signatures of the two times are the same.
  pub validate_session_token-late :
      (user : Text) (t now : ℕ)
      → AreBytes user
      → AreBytes (format (t + 1))
      → AreBytes (mac secret (user ++ b':' ∷ format_int t))
      → parse (format (t + 1)) ≡ some ((t + 1) * 1000000000)
      → text_eq (signature user t) (signature user (t + 1)) ≡ false
      → validate_session_token now (generate_session_token user t (t + 1)) ≡ none
  validate_session_token-late user t now bu bt bm rt ne =
      answer-generate user t (t + 1) now bu bt bm rt ∙ rw ne (ground arith)

  -- What an accepted token is made of.
  pub record IsSigned (now : ℕ) (token user : Text) : Type 0 where
    pub seconds : ℕ
    pub first : Text
    pub second : Text
    pub parts : split_on b'.' token ≡ first ∷ second ∷ signature user seconds ∷ []
    pub names : url_decode first ≡ some user
    pub in_time : now < (seconds + 1 + 24 * 3600) * 1000000000

  check_session-eq-some :
      (sent user : Text) (now : ℕ) (name : Option Text) (time : Option ℕ)
      → check_session sent now name time ≡ some user
      → (t : ℕ) × (name ≡ some user)
        × (now < (t + 1 + 24 * 3600) * 1000000000)
        × (sent ≡ signature user t)
  unfolding check_session
  check_session-eq-some sent user now none time h = cc
  check_session-eq-some sent user now (some u) none h = cc
  check_session-eq-some sent user now (some u) (some t) h =
      let same : u ≡ user = ground arith in
      let agree : text_eq sent (signature u (unix t)) ≡ true = ground arith in
      let fresh : is_over t now ≡ false = ground arith in
      (
        unix t,
        ap some same,
        ground (arith, fresh),
        (text_eq_iff sent (signature u (unix t))).0 agree ∙ ap (λ v. signature v (unix t)) same,
      )

  -- Every token that is accepted for a user carries the MAC, under the secret of the server, of that
  -- user and of a second that began less than a day and a second ago: the fraction of a second is not
  -- signed.
  pub validate_session_token-IsSigned :
      (now : ℕ) (token user : Text)
      → validate_session_token now token ≡ some user
      → IsSigned now token user
  unfolding validate_session_token check_parts
  validate_session_token-IsSigned now token user h = of_parts (split_on b'.' token) refl h
    where
      of_parts :
          (ps : List Text)
          → split_on b'.' token ≡ ps
          → check_parts now ps ≡ some user
          → IsSigned now token user
      of_parts (a ∷ b ∷ c ∷ []) e k =
          let (t, names, in_time, signed) =
            check_session-eq-some c user now (url_decode a) (parsed (url_decode b)) k in
          record {
            seconds = t;
            first = a;
            second = b;
            parts = e ∙ ap (λ x. a ∷ b ∷ x ∷ []) signed;
            names = names;
            in_time = in_time;
          }
      of_parts [] e k = cc
      of_parts (a ∷ []) e k = cc
      of_parts (a ∷ b ∷ []) e k = cc
      of_parts (a ∷ b ∷ c ∷ d ∷ ps) e k = cc
