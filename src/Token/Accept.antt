-- ===== src/Token/Accept.antt =====
-- Tokens that were made are accepted, with what they were made for.
use caspaste.Prelude.{ℕ, ◌≡◌, true, false, some, List, [], ◌++◌, Text}
use caspaste.Prelude.Table.{select_row}
use caspaste.Token.Model.{
  Token, TokenInfo, user, Table, Db, Result, ok, err, token_expired, prefix_user, has_hash,
  is_expired,
}

-- The answer to a token `t` of a user, with this name and these scopes, at the time `later`.
abbrev pub Accepted : ℕ → ℕ → Text → List Text → Token → Result TokenInfo → Type 0
Accepted later user_id name scopes t (err e) = (is_expired later t ≡ true) × (e ≡ token_expired)
Accepted later user_id name scopes t (ok info) =
    (is_expired later t ≡ false)
    × (info.type ≡ user)
    × (info.owner_id ≡ user_id)
    × (info.user_id ≡ user_id)
    × (info.scopes ≡ scopes)
    × (info.token.id ≡ t.id)
    × (info.token.name ≡ name)

module _ (hash_token : Text → Text) where
  -- The row that `CreateUserToken` has stored, and what it returned.
  record IsMade (raw : Text) (db' : Db) (row : Token) (full_token : Text) (t : Token) : Type 0 where
    token_is : full_token ≡ prefix_user ++ raw
    row_is : t ≡ record row { id = t.id; token_hash = [] }
    found :
        select_row (has_hash (hash_token (prefix_user ++ raw))) db'.user_tokens.rows
        ≡ some (record row { id = t.id })
