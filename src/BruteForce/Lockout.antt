-- ===== src/BruteForce/Lockout.antt =====
-- When an address is locked out.
use caspaste.Prelude.{
  ℕ, ◌+◌, ◌≤◌, ◌<◌, ◌≡◌, ◌≢◌, false, ltb, none, some, List, [], ◌∷◌, Text, text_eq_refl,
  text_eq_iff, length, arith, read_or,
}
use caspaste.BruteForce.{
  LoginAttempts, BruteForceProtection, no_attempts, check_blocked, record_failure, record_success,
}

-- Failures of one address, each with its two readings of the clock.
unfoldable pub fail_all : BruteForceProtection → Text → List (ℕ × ℕ) → BruteForceProtection
fail_all b ip [] = b
fail_all b ip ((now, now') ∷ ts) = fail_all (record_failure b (some ip) now now') ip ts

-- The address has failed `n` times and was never locked.
pub record Counts (b : BruteForceProtection) (ip : Text) (n max lockout : ℕ) : Type 0 where
  pub count_is : (read_or no_attempts (b.attempts ip)).count ≡ n
  pub unlocked : (read_or no_attempts (b.attempts ip)).locked_until ≡ 0
  pub has_max : b.max_attempts ≡ max
  pub has_lockout : b.lockout_time ≡ lockout

pub record_failure-Counts :
    (b : BruteForceProtection) (ip : Text) (n max lockout now now' : ℕ)
    → Counts b ip n max lockout
    → n + 1 < max
    → Counts (record_failure b (some ip) now now') ip (n + 1) max lockout
unfolding record_failure
record_failure-Counts b ip n max lockout now now' c h = ground (arith, text_eq_refl ip)

pub fail_all-Counts :
    (ts : List (ℕ × ℕ)) (b : BruteForceProtection) (ip : Text) (n max lockout : ℕ)
    → Counts b ip n max lockout
    → n + length ts < max
    → Counts (fail_all b ip ts) ip (n + length ts) max lockout
unfolding fail_all
fail_all-Counts [] b ip n max lockout c h =
    omega (arith, c.count_is, c.unlocked, c.has_max, c.has_lockout)
fail_all-Counts ((now, now') ∷ ts) b ip n max lockout c h =
    let later =
      fail_all-Counts ts (record_failure b (some ip) now now') ip (n + 1) max lockout
        (record_failure-Counts b ip n max lockout now now' c (omega arith)) (omega arith) in
    record {
      count_is = omega (arith, later.count_is);
      unlocked = later.unlocked;
      has_max = later.has_max;
      has_lockout = later.has_lockout;
    }

pub Counts-blocked :
    (b : BruteForceProtection) (ip : Text) (n max lockout later : ℕ)
    → Counts b ip n max lockout
    → check_blocked b (some ip) later ≡ false
unfolding check_blocked
Counts-blocked b ip n max lockout later c = ground arith

Counts-locks :
    (b : BruteForceProtection) (ip : Text) (n max lockout now now' later : ℕ)
    → Counts b ip n max lockout
    → n + 1 ≡ max
    → check_blocked (record_failure b (some ip) now now') (some ip) later
      ≡ ltb later (now' + lockout)
unfolding check_blocked record_failure
Counts-locks b ip n max lockout now now' later c h = ground (arith, text_eq_refl ip)

-- An address without an entry is not blocked by fewer failures than the maximum, and the failure
-- that reaches the maximum blocks it from then on, for exactly the lockout time.
pub fail_all_blocks :
    (b : BruteForceProtection) (ip : Text) (ts : List (ℕ × ℕ)) (now now' later : ℕ)
    → b.attempts ip ≡ none
    → length ts + 1 ≡ b.max_attempts
    → (check_blocked (fail_all b ip ts) (some ip) later ≡ false)
      × (check_blocked (record_failure (fail_all b ip ts) (some ip) now now') (some ip) later
          ≡ ltb later (now' + b.lockout_time))
fail_all_blocks b ip ts now now' later e h =
    let start : Counts b ip 0 b.max_attempts b.lockout_time = ground arith in
    let c = fail_all-Counts ts b ip 0 b.max_attempts b.lockout_time start (omega arith) in
    (
      Counts-blocked _ ip (0 + length ts) b.max_attempts b.lockout_time later c,
      Counts-locks _ ip (0 + length ts) b.max_attempts b.lockout_time now now' later c
          (omega arith),
    )

-- An address whose count has reached the maximum and whose lock has run out is locked again by one
-- more failure, for exactly the lockout time.
pub record_failure_relocks :
    (b : BruteForceProtection) (ip : Text) (a : LoginAttempts) (now now' later : ℕ)
    → b.attempts ip ≡ some a
    → b.max_attempts ≤ a.count
    → a.locked_until ≤ now
    → check_blocked (record_failure b (some ip) now now') (some ip) later
      ≡ ltb later (now' + b.lockout_time)
unfolding check_blocked record_failure
record_failure_relocks b ip a now now' later e m l = ground (arith, text_eq_refl ip)

-- A success of an address unblocks it, and neither a success nor a failure of it shows at another.
pub check_blocked_others :
    (b : BruteForceProtection) (ip j : Text) (now now' later : ℕ)
    → j ≢ ip
    → (check_blocked (record_success b (some ip)) (some ip) later ≡ false)
      × (check_blocked (record_success b (some ip)) (some j) later ≡ check_blocked b (some j) later)
      × (check_blocked (record_failure b (some ip) now now') (some j) later
          ≡ check_blocked b (some j) later)
unfolding check_blocked record_failure record_success
check_blocked_others b ip j now now' later ne =
    ground (arith, text_eq_refl ip, (text_eq_iff j ip).0)
