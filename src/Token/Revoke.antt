-- ===== src/Token/Revoke.antt =====
-- Revocation: what it removes, and that it touches nothing else.
use caspaste.Prelude.{ℕ, ◌↔◌, ◌≡◌, refl, sym, ap, false, none, Text, arith, Bool-cases, inl, inr}
use caspaste.Prelude.Table.{Outcome, delete}
use caspaste.Prelude.Table.Laws.{select_row-delete_kept, select_row-delete_first}
use caspaste.Token.Model.{Token, TokenInfo, Db, ok, has_hash}
use caspaste.Token.Create.{revoke_user_token, is_user_token}
use caspaste.Token.Rows.{user-answer, row_answer-eq_ok}
use caspaste.Token.Validate.{validate_user_token, user_info}

-- The token of this user with this id.
abbrev pub IsRevoked : ℕ → ℕ → TokenInfo → Type 0
IsRevoked token_id user_id info = (info.token.id ≡ token_id) × (info.owner_id ≡ user_id)

revoked-rows :
    (db : Db) (token_id user_id : ℕ)
    → (revoke_user_token none db token_id user_id).0.user_tokens.rows
      ≡ delete (is_user_token token_id user_id) db.user_tokens.rows
unfolding revoke_user_token
revoked-rows db token_id user_id = refl

spared :
    (token_id user_id : ℕ) (t : Token) (info : TokenInfo)
    → info ≡ user_info t
    → ¬ IsRevoked token_id user_id info
    → is_user_token token_id user_id t ≡ false
spared token_id user_id t info is other = elim (Bool-cases (is_user_token token_id user_id t)) [
  | inl hit ↦ absurd (other (rw is (ground arith)))
  | inr miss ↦ miss
]

-- A revoked token of a user is never accepted again, under whatever hash.
revoke_user_token_gone :
    (o₂ : Outcome) (now : ℕ) (db : Db) (token_id user_id : ℕ) (h : Text) (info : TokenInfo)
    → (validate_user_token none o₂ now (revoke_user_token none db token_id user_id).0 h).1 ≡ ok info
    → ¬ IsRevoked token_id user_id info
revoke_user_token_gone o₂ now db token_id user_id h info e r =
    let (t, row, fresh, is) = row_answer-eq_ok user_info now _ info (rw user-answer at e) in
    let kept =
      select_row-delete_kept (has_hash h) (is_user_token token_id user_id) db.user_tokens.rows t
        (rw (revoked-rows db token_id user_id) at row) in
    ground (arith, is, r.0, r.1, kept)

-- Every other user token that was accepted before a revocation is accepted after it, with the same
-- answer.
revoke_user_token_spared :
    (o₂ : Outcome) (now : ℕ) (db : Db) (token_id user_id : ℕ) (h : Text) (info : TokenInfo)
    → (validate_user_token none o₂ now db h).1 ≡ ok info
    → ¬ IsRevoked token_id user_id info
    → (validate_user_token none o₂ now (revoke_user_token none db token_id user_id).0 h).1 ≡ ok info
revoke_user_token_spared o₂ now db token_id user_id h info e other =
    let (t, row, fresh, is) = row_answer-eq_ok user_info now _ info (rw user-answer at e) in
    rw (user-answer, revoked-rows)
      (rw
        (select_row-delete_first (has_hash h) (is_user_token token_id user_id) db.user_tokens.rows t
          row (spared token_id user_id t info is other))
        (rw fresh (ap ok (sym is))))

-- A user token that is accepted before a revocation which runs is accepted after it, with the same
-- answer, exactly if it is not the token of this user with this id.
pub validate-revoke_user_token :
    (o₂ : Outcome) (now : ℕ) (db : Db) (token_id user_id : ℕ) (h : Text) (info : TokenInfo)
    → (validate_user_token none o₂ now db h).1 ≡ ok info
    → ((validate_user_token none o₂ now (revoke_user_token none db token_id user_id).0 h).1
        ≡ ok info)
      ↔ (¬ IsRevoked token_id user_id info)
validate-revoke_user_token o₂ now db token_id user_id h info e = (
  revoke_user_token_gone o₂ now db token_id user_id h info,
  revoke_user_token_spared o₂ now db token_id user_id h info e,
)
