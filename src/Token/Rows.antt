-- ===== src/Token/Rows.antt =====
-- What `Validate` answers for the row that a hash finds.
use caspaste.Prelude.{ℕ, ◌≡◌, refl, false, if◌then◌else◌, Option, none, some, Text, arith}
use caspaste.Prelude.Table.{Outcome, select_row}
use caspaste.Token.Model.{
  Token, TokenInfo, Db, Result, ok, err, token_not_found, token_expired, has_hash, is_expired,
}
use caspaste.Token.Validate.{validate_user_token, validate_org_token, user_info, org_info}

-- The answer for a row, by itself.
abbrev pub row_answer : (Token → TokenInfo) → ℕ → Option Token → Result TokenInfo
row_answer info now none = err token_not_found
row_answer info now (some t) = if is_expired now t then err token_expired else ok (info t)

pub user-answer :
    (o₂ : Outcome) (now : ℕ) (db : Db) (h : Text)
    → (validate_user_token none o₂ now db h).1
      ≡ row_answer user_info now (select_row (has_hash h) db.user_tokens.rows)
unfolding validate_user_token
user-answer o₂ now db h = ground arith

pub org-answer :
    (o₂ : Outcome) (now : ℕ) (db : Db) (h : Text)
    → (validate_org_token none o₂ now db h).1
      ≡ row_answer org_info now (select_row (has_hash h) db.org_tokens.rows)
unfolding validate_org_token
org-answer o₂ now db h = ground arith

pub row_answer-eq_ok :
    (info : Token → TokenInfo) (now : ℕ) (row : Option Token) (i : TokenInfo)
    → row_answer info now row ≡ ok i
    → (t : Token) × (row ≡ some t) × (is_expired now t ≡ false) × (i ≡ info t)
row_answer-eq_ok info now none i e = cc
row_answer-eq_ok info now (some t) i e = (t, refl, ground arith, ground arith)
