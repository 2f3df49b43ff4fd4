-- ===== src/BruteForce/Cleanup.antt =====
-- What the clean-up forgets, and that it lifts no lock.
use caspaste.Prelude.{
  ℕ, ◌+◌, ◌≤◌, ◌<◌, ◌≡◌, refl, ◌∙◌, false, Option, none, some, List, [], ◌∷◌, Text, length, arith,
  All,
}
use caspaste.BruteForce.{BruteForceProtection, check_blocked, cleanup}
use caspaste.BruteForce.Lockout.{fail_all, Counts, fail_all-Counts, Counts-blocked}

-- A clean-up at or before the time of a test does not change its answer: no lock is lifted early.
pub check_blocked-cleanup :
    (b : BruteForceProtection) (ip : Option Text) (t later : ℕ)
    → t ≤ later
    → check_blocked (cleanup b t) ip later ≡ check_blocked b ip later
unfolding check_blocked cleanup
check_blocked-cleanup b none t later h = refl
check_blocked-cleanup b (some ip) t later h = ground arith

-- Some failures of an address, and then a round of the clean-up at a time.
abbrev pub Round : Type 0
Round = List (ℕ × ℕ) × ℕ

unfoldable pub run_rounds : BruteForceProtection → Text → List Round → BruteForceProtection
run_rounds b ip [] = b
run_rounds b ip ((ts, t) ∷ rounds) = run_rounds (cleanup (fail_all b ip ts) t) ip rounds

-- Each round has fewer failures than the maximum, and its clean-up runs after the zero time.
abbrev pub IsSlow : ℕ → Round → Type 0
IsSlow max (ts, t) = (length ts < max) × (0 < t)

cleanup-forgets :
    (b : BruteForceProtection) (ip : Text) (n max lockout t : ℕ)
    → Counts b ip n max lockout
    → n < max
    → 0 < t
    → (cleanup b t).attempts ip ≡ none
unfolding cleanup
cleanup-forgets b ip n max lockout t c h p = ground arith

fresh-Counts :
    (b : BruteForceProtection) (ip : Text)
    → b.attempts ip ≡ none
    → Counts b ip 0 b.max_attempts b.lockout_time
fresh-Counts b ip e = ground arith

cleanup-max : (b : BruteForceProtection) (t : ℕ) → (cleanup b t).max_attempts ≡ b.max_attempts
unfolding cleanup
cleanup-max b t = refl

-- An address without an entry that fails fewer times than the maximum before each round of the
-- clean-up, however shortly before it, is not blocked after any number of rounds, if the rounds run
-- after the zero time.
pub run_rounds_never_blocked :
    (rounds : List Round) (b : BruteForceProtection) (ip : Text) (later : ℕ)
    → b.attempts ip ≡ none
    → All (IsSlow b.max_attempts) rounds
    → check_blocked (run_rounds b ip rounds) (some ip) later ≡ false
unfolding run_rounds
run_rounds_never_blocked [] b ip later e slow =
    Counts-blocked b ip 0 b.max_attempts b.lockout_time later (fresh-Counts b ip e)
run_rounds_never_blocked ((ts, t) ∷ rounds) b ip later e slow =
    let c =
      fail_all-Counts ts b ip 0 b.max_attempts b.lockout_time (fresh-Counts b ip e)
        (omega (arith, slow.0.0)) in
    let same : (cleanup (fail_all b ip ts) t).max_attempts ≡ b.max_attempts =
      cleanup-max (fail_all b ip ts) t ∙ c.has_max in
    run_rounds_never_blocked rounds (cleanup (fail_all b ip ts) t) ip later
      (cleanup-forgets (fail_all b ip ts) ip (0 + length ts) b.max_attempts b.lockout_time t c
        (omega (arith, slow.0.0)) slow.0.1)
      (rw same slow.1)
