-- ===== src/Token/Cleanup.antt =====
-- `CleanupExpired` seen from `Validate`.
use caspaste.Prelude.{ℕ, ◌≤◌, ◌≡◌, refl, ap, ◌∙◌, if◌then◌else◌, Option, none, some, Text, arith}
use caspaste.Prelude.Table.{Outcome, affected, select_row}
use caspaste.Prelude.Table.Laws.{select_row-delete_unique}
use caspaste.Token.Model.{
  Token, TokenInfo, Db, Error, Result, ok, err, token_not_found, token_expired, has_hash,
  is_expired,
}
use caspaste.Token.Rows.{row_answer, user-answer, org-answer}
use caspaste.Token.Validate.{
  validate, validate_user_token, validate_org_token, validate_admin_token, cleanup_expired,
  user_info, org_info,
}

-- No two rows have one hash: the column is UNIQUE.
pub record UniqueHashes (db : Db) : Type 0 where
  pub users : (h : Text) → affected (has_hash h) db.user_tokens.rows ≤ 1
  pub orgs : (h : Text) → affected (has_hash h) db.org_tokens.rows ≤ 1

-- An expired token is no longer known.
abbrev pub forget_error : Error → Error
forget_error token_expired = token_not_found
forget_error e = e

abbrev pub forget_expired : Result TokenInfo → Result TokenInfo
forget_expired (ok info) = ok info
forget_expired (err e) = err (forget_error e)

row_answer-forget :
    (info : Token → TokenInfo) (now : ℕ) (row : Option Token)
    → row_answer info now
        (elim row [ none ↦ none | some t ↦ (if is_expired now t then none else some t) ])
      ≡ forget_expired (row_answer info now row)
row_answer-forget info now none = refl
row_answer-forget info now (some t) = ground arith

module _ (o₂ : Outcome) (now : ℕ) (db : Db) (u : UniqueHashes db) (h : Text) where
  user-cleanup :
      (validate_user_token none o₂ now (cleanup_expired none none now db).0 h).1
      ≡ forget_expired (validate_user_token none o₂ now db h).1
  unfolding cleanup_expired
  user-cleanup =
      rw (user-answer, user-answer)
        (ap (row_answer user_info now)
            (select_row-delete_unique (has_hash h) (is_expired now) db.user_tokens.rows (u.users h))
          ∙ row_answer-forget user_info now (select_row (has_hash h) db.user_tokens.rows))

  org-cleanup :
      (validate_org_token none o₂ now (cleanup_expired none none now db).0 h).1
      ≡ forget_expired (validate_org_token none o₂ now db h).1
  unfolding cleanup_expired
  org-cleanup =
      rw (org-answer, org-answer)
        (ap (row_answer org_info now)
            (select_row-delete_unique (has_hash h) (is_expired now) db.org_tokens.rows (u.orgs h))
          ∙ row_answer-forget org_info now (select_row (has_hash h) db.org_tokens.rows))

admin-forget :
    (now : ℕ) (db : Db) (h : Text)
    → forget_expired (validate_admin_token none now db h) ≡ validate_admin_token none now db h
unfolding validate_admin_token
admin-forget now db h = ground arith

admin-cleanup :
    (now : ℕ) (db : Db) (h : Text)
    → validate_admin_token none now (cleanup_expired none none now db).0 h
      ≡ forget_expired (validate_admin_token none now db h)
unfolding cleanup_expired validate_admin_token
admin-cleanup now db h = rw admin-forget refl

-- After the clean-up every token is answered as before it, at the time for which it ran, except
-- that the expired ones are reported as unknown: no token that was valid is lost, and none comes
-- back. The statements run, and the hashes in each table are distinct.
pub validate-cleanup_expired :
    (hash_token : Text → Text) (o₂ : Outcome) (now : ℕ) (db : Db) (token : Text)
    → UniqueHashes db
    → (validate hash_token none o₂ now (cleanup_expired none none now db).0 token).1
      ≡ forget_expired (validate hash_token none o₂ now db token).1
unfolding validate
validate-cleanup_expired hash_token o₂ now db token u = ground (
  arith,
  user-cleanup o₂ now db u (hash_token token),
  org-cleanup o₂ now db u (hash_token token),
  admin-cleanup now db (hash_token token),
)
