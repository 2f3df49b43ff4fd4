-- ===== src/BruteForce.antt =====
-- src/caspasswd/bruteforce.go: failed logins per client address and the lockout. Instants are
-- nanoseconds since the zero `time.Time`, so an entry that was never locked has 0 there. A state is
-- what the mutex guards; a nil address is `none`.
pub mod Lockout
mod Cleanup
mod Tests
use caspaste.Prelude.{
  ℕ, ◌+◌, ◌*◌, ◌^◌, ltb, leb, ◌||◌, ◌&&◌, Bool, true, false, if◌then◌else◌, Option, none, some,
  Text, text_eq, Map, put, remove, purge, read_or,
}
use caspaste.Prelude.Int.{ℤ, pos, sub_ℕ}

pub record LoginAttempts : Type 0 where
  pub count : ℕ
  pub locked_until : ℕ

pub record BruteForceProtection : Type 0 where
  pub attempts : Map LoginAttempts
  pub max_attempts : ℕ
  pub lockout_time : ℕ
  pub cleanup_period : ℕ
  pub last_cleanup : ℕ

unfoldable pub new_brute_force_protection : ℕ → ℕ → ℕ → BruteForceProtection
new_brute_force_protection max_attempts lockout_time now = record {
  attempts = λ _. none;
  max_attempts = max_attempts;
  lockout_time = lockout_time;
  cleanup_period = 10 * 60 * 10 ^ 9;
  last_cleanup = now;
}

blocked : Option LoginAttempts → ℕ → Bool
blocked none now = false
blocked (some a) now = ltb now a.locked_until

unfoldable pub check_blocked : BruteForceProtection → Option Text → ℕ → Bool
unfolding blocked
check_blocked b none now = false
check_blocked b (some ip) now = blocked (b.attempts ip) now

abbrev pub no_attempts : LoginAttempts
no_attempts = record { count = 0; locked_until = 0 }

-- What a failure makes of an entry; the clock is read at the test, and again where the lock is set.
unfoldable pub failed : BruteForceProtection → ℕ → ℕ → LoginAttempts → LoginAttempts
failed b now now' a =
    if ltb now a.locked_until
    then a
    else (let counted = record a { count = a.count + 1 } in
        if leb b.max_attempts counted.count
        then record counted { locked_until = now' + b.lockout_time }
        else counted)

unfoldable pub record_failure : BruteForceProtection → Option Text → ℕ → ℕ → BruteForceProtection
unfolding failed
record_failure b none now now' = b
record_failure b (some ip) now now' = record b {
  attempts = put ip (failed b now now' (read_or no_attempts (b.attempts ip))) b.attempts;
}

unfoldable pub record_success : BruteForceProtection → Option Text → BruteForceProtection
record_success b none = b
record_success b (some ip) = record b { attempts = remove ip b.attempts }

remaining : Option LoginAttempts → ℕ → ℕ → ℤ
remaining none now now' = pos 0
remaining (some a) now now' = if ltb now a.locked_until then sub_ℕ a.locked_until now' else pos 0

unfoldable pub get_remaining_lockout : BruteForceProtection → Option Text → ℕ → ℕ → ℤ
unfolding remaining
get_remaining_lockout b none now now' = pos 0
get_remaining_lockout b (some ip) now now' = remaining (b.attempts ip) now now'

-- Either of the two deletions of `cleanup` takes the entry.
abbrev is_stale : BruteForceProtection → ℕ → LoginAttempts → Bool
is_stale b now a =
    (ltb a.locked_until now && ltb a.count b.max_attempts)
    || ltb (a.locked_until + b.cleanup_period) now

unfoldable pub cleanup : BruteForceProtection → ℕ → BruteForceProtection
cleanup b now = record b { attempts = purge (is_stale b now) b.attempts; last_cleanup = now }
