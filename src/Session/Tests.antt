-- ===== src/Session/Tests.antt =====
-- Runs of the session service, and its theorems at a small table. The hash of the tests is the
-- token with one byte in front.
use caspaste.Prelude.{
  ◌↔◌, ℕ, ◌*◌, ◌≤◌, ◌≡◌, refl, none, some, [], ◌∷◌, Text, codes, text_eq, text_eq_iff, arith,
}
use caspaste.Prelude.Table.{select_row, affected}
use caspaste.Session.{
  Session, Service, ok, err, session_not_found, nanos, has_hash, create, insert_session, validate,
  extend, delete_all_except, cleanup_expired,
}
use caspaste.Session.Accept.{validate-create, validate-extend, validate_expired}
use caspaste.Session.Logout.{
  Stays, validate-delete_all_except, forget_expired, validate-cleanup_expired_session,
}

abbrev hash : Text → Text
hash t = b'#' ∷ t

abbrev row : ℕ → ℕ → Text → ℕ → Session
row id user_id token expires_at = record {
  id = id;
  user_id = user_id;
  token_hash = hash token;
  device = codes "laptop";
  ip_address = [];
  user_agent = [];
  expires_at = expires_at;
  created_at = 1;
}

abbrev s : Service
s = record {
  rows = row 1 7 (codes "a") 100 ∷ row 2 7 (codes "b") 20 ∷ row 3 8 (codes "c") 100 ∷ [];
  last_id = 3;
  duration = 30 * nanos;
}

abbrev now : ℕ
now = 50 * nanos

s-distinct : (h : Text) → affected (has_hash h) s.rows ≤ 1
unfolding affected
s-distinct h =
    ground
      (arith, text_eq_iff (codes "#a") h, text_eq_iff (codes "#b") h, text_eq_iff (codes "#c") h)

validate-create_example :
    (validate hash none none now
      (create hash (some (codes "new")) none now now s 5 [] [] []).0
      (codes "new")).1
    ≡ ok (record (row 4 5 (codes "new") 80) { device = []; created_at = 50 })
unfolding create insert_session affected text_eq
validate-create_example =
    validate-create hash now now now none s 5 [] [] [] (codes "new") (λ e. cc) refl

validate-extend_run :
    (validate hash none none now (extend hash none now s (codes "b")).0 (codes "b")).1
    ≡ ok (row 2 7 (codes "b") 80)
unfolding select_row text_eq
validate-extend_run =
    validate-extend hash now now none s (codes "b") (row 2 7 (codes "b") 20) (λ e. cc) refl
      (omega arith)

validate_expired_run :
    (validate hash none none now (validate hash none none now s (codes "b")).0 (codes "b")).1
    ≡ err session_not_found
unfolding validate select_row text_eq
validate_expired_run = validate_expired hash now now none s (codes "b") refl

validate-delete_all_except_example :
    ((validate hash none none
        (10 * nanos)
        (delete_all_except hash none s 7 (codes "a")).0
        (codes "b")).1
      ≡ ok (row 2 7 (codes "b") 20))
    ↔ Stays hash 7 (codes "a") (row 2 7 (codes "b") 20)
unfolding validate select_row text_eq
validate-delete_all_except_example =
    validate-delete_all_except hash (10 * nanos) none s 7 (codes "a") (codes "b")
      (row 2 7 (codes "b") 20) (λ e. cc) refl

validate-cleanup_expired_session_run :
    (validate hash none none now (cleanup_expired none now s).0 (codes "b")).1
    ≡ forget_expired (validate hash none none now s (codes "b")).1
validate-cleanup_expired_session_run =
    validate-cleanup_expired_session hash now none s (codes "b") (λ e. cc) s-distinct
