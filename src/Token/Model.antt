-- ===== src/Token/Model.antt =====
-- The data of src/token/token.go: tokens, the three tables, errors and constants.
use caspaste.Prelude.{
  ℕ, ◌+◌, Bool, Option, none, some, List, [], ◌∷◌, ◌++◌, if◌then◌else◌, ◌==◌, Text, text_eq, codes,
}
use caspaste.Prelude.Int.{ℤ, pos, ltz}
use caspaste.Prelude.Table.{Outcome, affected}

abbrev pub prefix_user : Text
prefix_user = codes "usr_"

abbrev pub prefix_org : Text
prefix_org = codes "org_"

abbrev pub prefix_adm : Text
prefix_adm = codes "adm_"

abbrev pub scope_global : Text
scope_global = codes "global"

abbrev pub scope_read_write : Text
scope_read_write = codes "read-write"

abbrev pub scope_read : Text
scope_read = codes "read"

pub data Error : Type 0 where
  token_not_found token_expired invalid_token token_revoked : Error
  no_randomness unique_violation : Error
  driver : ℕ → Error

pub data Result {ℓ} (A : Type ℓ) : Type ℓ where
  ok : A → Result A
  err : Error → Result A

-- A row of `user_tokens` has an owner; one of `org_tokens` has an organization and a creator.
pub record Token : Type 0 where
  pub id : ℕ
  pub owner_id : ℕ
  pub org_id : ℕ
  pub created_by : ℕ
  pub name : Text
  pub token_prefix : Text
  pub token_hash : Text
  pub scopes : Text
  pub last_used_at : Option ℕ
  pub expires_at : Option ℤ
  pub created_at : ℕ

pub data TokenType : Type 0 where
  user org admin : TokenType

pub record TokenInfo : Type 0 where
  pub type : TokenType
  pub owner_id : ℕ
  pub user_id : ℕ
  pub scopes : List Text
  pub token : Token

-- A row of `admins`, its columns that the service reads or writes.
pub record Admin : Type 0 where
  pub id : ℕ
  pub username : Text
  pub role : Text
  pub enabled : ℕ
  pub api_token_hash : Option Text
  pub locked_until : Option ℤ
  pub updated_at : ℕ

-- A table with `AUTOINCREMENT`: its rows and the last id given out.
pub record Table : Type 0 where
  pub rows : List Token
  pub last_id : ℕ

pub record Db : Type 0 where
  pub user_tokens : Table
  pub org_tokens : Table
  pub admins : List Admin

-- `token_hash = ?`.
abbrev pub has_hash : Text → Token → Bool
has_hash h t = text_eq t.token_hash h

-- `expiresAt.Valid && expiresAt.Int64 < time.Now().Unix()`, and `expires_at IS NOT NULL AND
-- expires_at < ?` in the clean-up.
abbrev pub before : ℕ → Option ℤ → Bool
before now none = Bool.false
before now (some e) = ltz e (pos now)

abbrev pub is_expired : ℕ → Token → Bool
is_expired now t = before now t.expires_at

-- `INSERT INTO …_tokens`: the hash is unique, the id the next one.
unfoldable pub insert_token : Outcome → Token → Table → Result Table
insert_token (some e) t table = err (driver e)
insert_token none t table =
    if affected (has_hash t.token_hash) table.rows == 0
    then ok (record {
      rows = table.rows ++ record t { id = table.last_id + 1 } ∷ [];
      last_id = table.last_id + 1;
    })
    else err unique_violation
