-- ===== src/Web/Guessing.antt =====
-- Logins that fail, one after the other, from one address.
use caspaste.Prelude.{
  ℕ, ◌+◌, ◌<◌, ◌≡◌, refl, ap, ◌∙◌, ltb, Bool, true, false, if◌then◌else◌, Option, none, some, List,
  [], ◌∷◌, Text, length, All, arith,
}
use caspaste.Password.Entries.{Result, ok, err}
use caspaste.Password.Argon.{IdKey, Run, done, panic}
use caspaste.Password.Accounts.{load_and_check_with_rehash}
use caspaste.BruteForce.{BruteForceProtection, check_blocked, record_failure}
use caspaste.BruteForce.Lockout.{
  fail_all, Counts, record_failure-Counts, Counts-blocked, fail_all_blocks,
}
use caspaste.Web.Login.{
  PasswordFile, not_configured, missing, present, Attempt, Reply, refused, recorded_failure,
  is_blocked, seconds_left, answered, credentials, handle_login_submit,
}

module _ (id_key : IdKey) (bcrypt : Text → Text → Bool) (make_token : Text → ℕ → ℕ → Text) where
  abbrev is_no : Run (Result (Bool × Bool)) → Bool
  is_no panic = false
  is_no (done (err e)) = true
  is_no (done (ok (valid, rehash))) = if valid then false else true

  -- The name and the password are not those of a user in the file.
  abbrev pub rejects : PasswordFile → Attempt → Bool
  rejects not_configured a = true
  rejects missing a = true
  rejects (present file) a =
      is_no (load_and_check_with_rehash id_key bcrypt file a.username a.password)

  abbrev next :
      (Option BruteForceProtection → Run (Option BruteForceProtection))
      → Run (Option BruteForceProtection × Reply)
      → Run (Option BruteForceProtection)
  next rest panic = panic
  next rest (done (b, reply)) = rest b

  -- The protection after a list of attempts.
  unfoldable pub attempt_all :
      PasswordFile → List Attempt → Option BruteForceProtection → Run (Option BruteForceProtection)
  attempt_all file [] b = done b
  attempt_all file (a ∷ tries) b =
      next (attempt_all file tries) (handle_login_submit id_key bcrypt make_token file b a)

  abbrev pub times : List Attempt → List (ℕ × ℕ)
  times [] = []
  times (a ∷ tries) = a.recorded ∷ times tries

  -- A wrong attempt from the address.
  abbrev pub IsWrong : PasswordFile → Text → Attempt → Type 0
  IsWrong file ip a = (a.client ≡ some ip) × (rejects file a ≡ true)

  answered-no :
      (b : Option BruteForceProtection) (a : Attempt) (r : Run (Result (Bool × Bool)))
      → is_no r ≡ true
      → answered id_key bcrypt make_token b a r ≡ done (recorded_failure a b, refused none)
  answered-no b a panic h = cc
  answered-no b a (done (err e)) h = refl
  answered-no b a (done (ok (true, r))) h = cc
  answered-no b a (done (ok (false, r))) h = refl

  credentials-rejects :
      (file : PasswordFile) (b : Option BruteForceProtection) (a : Attempt)
      → rejects file a ≡ true
      → credentials id_key bcrypt make_token file b a ≡ done (recorded_failure a b, refused none)
  credentials-rejects not_configured b a h = refl
  credentials-rejects missing b a h = refl
  credentials-rejects (present file) b a h =
      answered-no b a (load_and_check_with_rehash id_key bcrypt file a.username a.password) h

  -- A wrong attempt that is not blocked is recorded.
  wrong_attempt :
      (file : PasswordFile) (b : BruteForceProtection) (ip : Text) (a : Attempt)
      → IsWrong file ip a
      → check_blocked b (some ip) a.tested ≡ false
      → handle_login_submit id_key bcrypt make_token file (some b) a
        ≡ done (some (record_failure b (some ip) a.recorded.0 a.recorded.1), refused none)
  unfolding handle_login_submit
  wrong_attempt file b ip a w free =
      let free' : is_blocked a (some b) ≡ false = rw w.0 free in
      rw free' (credentials-rejects file (some b) a w.1 ∙ rw w.0 refl)

  wrong_attempts :
      (file : PasswordFile) (tries : List Attempt) (b : BruteForceProtection) (ip : Text)
      (n max lockout : ℕ)
      → Counts b ip n max lockout
      → n + length tries < max
      → All (IsWrong file ip) tries
      → attempt_all file tries (some b) ≡ done (some (fail_all b ip (times tries)))
  unfolding attempt_all fail_all
  wrong_attempts file [] b ip n max lockout c h w = refl
  wrong_attempts file (a ∷ tries) b ip n max lockout c h w =
      let now = a.recorded.0 in
      let now' = a.recorded.1 in
      let free = Counts-blocked b ip n max lockout a.tested c in
      let counted = record_failure-Counts b ip n max lockout now now' c (omega arith) in
      ap (next (attempt_all file tries)) (wrong_attempt file b ip a w.0 free)
      ∙ wrong_attempts file tries (record_failure b (some ip) now now') ip (n + 1) max lockout
          counted (omega arith) w.1

  -- From an address without an entry, wrong attempts are all answered and recorded, up to the one
  -- that reaches the maximum; from then on, for exactly the time of the lockout, an attempt is
  -- refused, whether its password is right or not, and changes nothing.
  pub handle_login_submit-locks :
      (file : PasswordFile) (tries : List Attempt) (last a : Attempt) (b : BruteForceProtection)
      (ip : Text)
      → b.attempts ip ≡ none
      → length tries + 1 ≡ b.max_attempts
      → All (IsWrong file ip) tries
      → IsWrong file ip last
      → a.client ≡ some ip
      → let counted = fail_all b ip (times tries) in
        let locked = record_failure counted (some ip) last.recorded.0 last.recorded.1 in
        (attempt_all file tries (some b) ≡ done (some counted))
        × (handle_login_submit id_key bcrypt make_token file (some counted) last
            ≡ done (some locked, refused none))
        × (handle_login_submit id_key bcrypt make_token file (some locked) a ≡ (
            if ltb a.tested (last.recorded.1 + b.lockout_time)
            then done (some locked, refused (seconds_left a (some locked)))
            else credentials id_key bcrypt make_token file (some locked) a))
  unfolding handle_login_submit
  handle_login_submit-locks file tries last a b ip e m w wl c =
      let start : Counts b ip 0 b.max_attempts b.lockout_time = ground arith in
      let ts = times tries in
      let same = length-times tries in
      let now = last.recorded.0 in
      let now' = last.recorded.1 in
      let free = (fail_all_blocks b ip ts now now' last.tested e (omega (arith, same))).0 in
      let locks = (fail_all_blocks b ip ts now now' a.tested e (omega (arith, same))).1 in
      (
        wrong_attempts file tries b ip 0 b.max_attempts b.lockout_time start (omega arith) w,
        wrong_attempt file (fail_all b ip ts) ip last wl free,
        rw c (rw locks refl),
      )
    where
      length-times : (tries : List Attempt) → length (times tries) ≡ length tries
      length-times [] = refl
      length-times (a ∷ tries) = omega (arith, length-times tries)
