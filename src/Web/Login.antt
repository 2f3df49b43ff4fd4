-- ===== src/Web/Login.antt =====
-- src/web/auth.go: `handleLoginSubmit`, and who is asked to log in. `id_key` and `bcrypt` are the two
-- hashes, and `make_token` makes the cookie's token.
use caspaste.Prelude.{ℕ, Bool, true, false, if◌then◌else◌, Option, none, some, [], ◌∷◌, Text, codes}
use caspaste.Prelude.Int.{ℤ}
use caspaste.Password.Entries.{Result, ok, err}
use caspaste.Password.Argon.{IdKey, Run, done, panic}
use caspaste.Password.Accounts.{load_and_check_with_rehash}
use caspaste.BruteForce.{
  BruteForceProtection, check_blocked, record_failure, record_success, get_remaining_lockout,
}

-- The file of passwords: none is configured, or the path does not exist, or what it holds.
pub data PasswordFile : Type 0 where
  not_configured missing : PasswordFile
  present : Option Text → PasswordFile

-- An address, the values of the form, and the readings of the clock: for the test of the lockout, for
-- the time that is left, and for the record of a failure.
pub record Attempt : Type 0 where
  pub client : Option Text
  pub username : Text
  pub password : Text
  pub redirect : Text
  pub tested : ℕ
  pub remaining : ℕ × ℕ
  pub recorded : ℕ × ℕ
  pub signed : ℕ × ℕ

-- `refused` is the login page with status 401, and the seconds to wait of a lockout; `logged_in` has
-- the value of the cookie, the address to go to, and whether the password is hashed again.
pub data Reply : Type 0 where
  refused : Option ℤ → Reply
  logged_in : Text → Text → Bool → Reply

abbrev or_root : Text → Text
or_root [] = codes "/"
or_root (c ∷ t) = c ∷ t

-- `data.BruteForce` may be nil.
abbrev pub recorded_failure : Attempt → Option BruteForceProtection → Option BruteForceProtection
recorded_failure a none = none
recorded_failure a (some b) = some (record_failure b a.client a.recorded.0 a.recorded.1)

abbrev recorded_success : Attempt → Option BruteForceProtection → Option BruteForceProtection
recorded_success a none = none
recorded_success a (some b) = some (record_success b a.client)

abbrev pub is_blocked : Attempt → Option BruteForceProtection → Bool
is_blocked a none = false
is_blocked a (some b) = check_blocked b a.client a.tested

abbrev pub seconds_left : Attempt → Option BruteForceProtection → Option ℤ
seconds_left a none = none
seconds_left a (some b) = some (get_remaining_lockout b a.client a.remaining.0 a.remaining.1)

module _ (id_key : IdKey) (bcrypt : Text → Text → Bool) (make_token : Text → ℕ → ℕ → Text) where
  abbrev pub answered :
      Option BruteForceProtection
      → Attempt
      → Run (Result (Bool × Bool))
      → Run (Option BruteForceProtection × Reply)
  answered b a panic = panic
  answered b a (done (err e)) = done (recorded_failure a b, refused none)
  answered b a (done (ok (false, rehash))) = done (recorded_failure a b, refused none)
  answered b a (done (ok (true, rehash))) = done (
    recorded_success a b,
    logged_in (make_token a.username a.signed.0 a.signed.1) (or_root a.redirect) rehash,
  )

  abbrev pub credentials :
      PasswordFile
      → Option BruteForceProtection
      → Attempt
      → Run (Option BruteForceProtection × Reply)
  credentials not_configured b a = done (recorded_failure a b, refused none)
  credentials missing b a = done (recorded_failure a b, refused none)
  credentials (present file) b a =
      answered b a (load_and_check_with_rehash id_key bcrypt file a.username a.password)

  -- A form that parses. The lockout's time is in nanoseconds.
  unfoldable pub handle_login_submit :
      PasswordFile
      → Option BruteForceProtection
      → Attempt
      → Run (Option BruteForceProtection × Reply)
  handle_login_submit file b a =
      if is_blocked a b then done (b, refused (seconds_left a b)) else credentials file b a
