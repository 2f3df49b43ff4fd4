-- ===== src/BruteForce/Tests.antt =====
-- Runs of the lockout, and its theorems at concrete inputs.
use caspaste.Prelude.{◌≡◌, refl, true, false, none, some, [], ◌∷◌, Text, codes, arith}
use caspaste.BruteForce.{BruteForceProtection, check_blocked, record_failure, cleanup}
use caspaste.BruteForce.Lockout.{fail_all, fail_all_blocks, record_failure_relocks}
use caspaste.BruteForce.Cleanup.{run_rounds, run_rounds_never_blocked, check_blocked-cleanup}

abbrev ip : Text
ip = codes "10.0.0.1"

abbrev guard : BruteForceProtection
guard = record {
  attempts = λ _. none;
  max_attempts = 3;
  lockout_time = 100;
  cleanup_period = 600;
  last_cleanup = 0;
}

abbrev worn : BruteForceProtection
worn = record guard { attempts = λ _. some (record { count = 3; locked_until = 110 }) }

fail_all_blocks_run :
    check_blocked
      (record_failure (fail_all guard ip ((10, 10) ∷ (11, 11) ∷ [])) (some ip) 12 13)
      (some ip)
      112
    ≡ true
fail_all_blocks_run = (fail_all_blocks guard ip ((10, 10) ∷ (11, 11) ∷ []) 12 13 112 refl refl).1

record_failure_relocks_run :
    check_blocked (record_failure worn (some ip) 200 201) (some ip) 250 ≡ true
record_failure_relocks_run =
    record_failure_relocks worn ip (record { count = 3; locked_until = 110 }) 200 201 250 refl
      (omega arith) (omega arith)

check_blocked-cleanup_run :
    check_blocked (cleanup worn 90) (some ip) 100 ≡ check_blocked worn (some ip) 100
check_blocked-cleanup_run = check_blocked-cleanup worn (some ip) 90 100 (omega arith)

run_rounds_never_blocked_run :
    check_blocked
      (run_rounds guard ip (((10, 10) ∷ (11, 11) ∷ [], 20) ∷ ((21, 21) ∷ (22, 22) ∷ [], 30) ∷ []))
      (some ip)
      31
    ≡ false
run_rounds_never_blocked_run =
    run_rounds_never_blocked (((10, 10) ∷ (11, 11) ∷ [], 20) ∷ ((21, 21) ∷ (22, 22) ∷ [], 30) ∷ [])
      guard ip 31 refl (omega arith)
