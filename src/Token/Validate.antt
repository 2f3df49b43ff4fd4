-- ===== src/Token/Validate.antt =====
-- `Validate` and its three cases, `updateLastUsed`, the listings and counts, `CleanupExpired`, and
-- the tests of scopes.
use caspaste.Prelude.{
  ℕ, ◌==◌, ◌||◌, Bool, false, if◌then◌else◌, Option, none, some, List, [], ◌∷◌, Text, text_eq,
  codes, has_prefix, split_on, join_with,
}
use caspaste.Prelude.Int.{ℤ, pos, ltz}
use caspaste.Prelude.Table.{Outcome, affected, update, delete, select_row}
use caspaste.Token.Model.{
  Token, TokenInfo, user, org, admin, Table, Db, Admin, Error, Result, ok, err, driver,
  token_not_found, token_expired, invalid_token, token_revoked, prefix_user, prefix_org, prefix_adm,
  scope_global, scope_read_write, scope_read, has_hash, is_expired,
}

-- `UPDATE …_tokens SET last_used_at = ? WHERE id = ?`, its error dropped. The whitelist of table
-- names is the choice of the field that a caller puts the table back into.
abbrev pub update_last_used : Outcome → ℕ → ℕ → Table → Table
update_last_used (some e) now id table = table
update_last_used none now id table = record table {
  rows = update (λ t. record t { last_used_at = some now }) (λ t. t.id == id) table.rows;
}

abbrev pub parse_scopes : Text → List Text
parse_scopes s = if text_eq s [] then [] else split_on b',' s

-- What `Scan` fills in; the other fields keep their zero values.
abbrev pub scan_user : Token → Token
scan_user t = record t {
  org_id = 0;
  created_by = 0;
  token_hash = [];
  last_used_at = none;
  expires_at = none;
}

abbrev pub scan_org : Token → Token
scan_org t = record t { owner_id = 0; token_hash = []; last_used_at = none; expires_at = none }

abbrev pub user_info : Token → TokenInfo
user_info t = record {
  type = user;
  owner_id = t.owner_id;
  user_id = t.owner_id;
  scopes = parse_scopes t.scopes;
  token = scan_user t;
}

abbrev pub org_info : Token → TokenInfo
org_info t = record {
  type = org;
  owner_id = t.org_id;
  user_id = t.created_by;
  scopes = parse_scopes t.scopes;
  token = scan_org t;
}

unfoldable pub user_row_info : Option Token → Outcome → ℕ → Db → Db × Result TokenInfo
user_row_info none o₂ now db = (db, err token_not_found)
user_row_info (some t) o₂ now db =
    if is_expired now t
    then (db, err token_expired)
    else (record db { user_tokens = update_last_used o₂ now t.id db.user_tokens }, ok (user_info t))

-- `o₁` is for the query, `o₂` for the update of `last_used_at`.
unfoldable pub validate_user_token : Outcome → Outcome → ℕ → Db → Text → Db × Result TokenInfo
unfolding user_row_info
validate_user_token (some e) o₂ now db hash = (db, err (driver e))
validate_user_token none o₂ now db hash =
    user_row_info (select_row (has_hash hash) db.user_tokens.rows) o₂ now db

unfoldable pub org_row_info : Option Token → Outcome → ℕ → Db → Db × Result TokenInfo
org_row_info none o₂ now db = (db, err token_not_found)
org_row_info (some t) o₂ now db =
    if is_expired now t
    then (db, err token_expired)
    else (record db { org_tokens = update_last_used o₂ now t.id db.org_tokens }, ok (org_info t))

unfoldable pub validate_org_token : Outcome → Outcome → ℕ → Db → Text → Db × Result TokenInfo
unfolding org_row_info
validate_org_token (some e) o₂ now db hash = (db, err (driver e))
validate_org_token none o₂ now db hash =
    org_row_info (select_row (has_hash hash) db.org_tokens.rows) o₂ now db

abbrev pub optional_eq : Option Text → Text → Bool
optional_eq none h = false
optional_eq (some g) h = text_eq g h

-- `api_token_hash = ?`, which no NULL satisfies.
abbrev pub has_api_hash : Text → Admin → Bool
has_api_hash h a = optional_eq a.api_token_hash h

abbrev pub after : ℕ → Option ℤ → Bool
after now none = false
after now (some l) = ltz (pos now) l

-- `lockedUntil.Valid && lockedUntil.Int64 > time.Now().Unix()`.
abbrev pub is_locked : ℕ → Admin → Bool
is_locked now a = after now a.locked_until

unfoldable pub role_scopes : Text → List Text
role_scopes role =
    if text_eq role (codes "superadmin")
    then scope_global ∷ []
    else if text_eq role (codes "admin")
    then scope_global ∷ []
    else if text_eq role (codes "readonly")
    then scope_read ∷ []
    else scope_global ∷ []

abbrev pub admin_info : Admin → TokenInfo
admin_info a = record {
  type = admin;
  owner_id = a.id;
  user_id = a.id;
  scopes = role_scopes a.role;
  token = record {
    id = a.id;
    owner_id = a.id;
    org_id = 0;
    created_by = 0;
    name = a.username;
    token_prefix = [];
    token_hash = [];
    scopes = join_with (codes ",") (role_scopes a.role);
    last_used_at = none;
    expires_at = none;
    created_at = 0;
  };
}

unfoldable pub admin_row_info : Option Admin → ℕ → Result TokenInfo
admin_row_info none now = err token_not_found
admin_row_info (some a) now =
    if a.enabled == 1
    then (if is_locked now a then err token_revoked else ok (admin_info a))
    else err token_revoked

unfoldable pub validate_admin_token : Outcome → ℕ → Db → Text → Result TokenInfo
unfolding admin_row_info
validate_admin_token (some e) now db hash = err (driver e)
validate_admin_token none now db hash =
    admin_row_info (select_row (has_api_hash hash) db.admins) now

module _ (hash_token : Text → Text) where
  unfoldable pub validate : Outcome → Outcome → ℕ → Db → Text → Db × Result TokenInfo
  validate o₁ o₂ now db token =
      if text_eq token []
      then (db, err invalid_token)
      else if has_prefix prefix_user token
      then validate_user_token o₁ o₂ now db (hash_token token)
      else if has_prefix prefix_org token
      then validate_org_token o₁ o₂ now db (hash_token token)
      else if has_prefix prefix_adm token
      then (db, validate_admin_token o₁ now db (hash_token token))
      else (db, err invalid_token)

-- `DELETE … WHERE expires_at IS NOT NULL AND expires_at < ?` on both tables; the second is reached
-- only if the first ran.
unfoldable pub cleanup_expired : Outcome → Outcome → ℕ → Db → Db × Option Error
cleanup_expired (some e) o₂ now db = (db, some (driver e))
cleanup_expired none o₂ now db =
    let clean : Table → Table = λ t. record t { rows = delete (is_expired now) t.rows } in
    let db' = record db { user_tokens = clean db.user_tokens } in
    elim o₂ [
      | some e ↦ (db', some (driver e))
      | none ↦ (record db' { org_tokens = clean db.org_tokens }, none)
    ]

unfoldable pub count_user_tokens : Db → ℕ → ℕ
count_user_tokens db user_id = affected (λ t. t.owner_id == user_id) db.user_tokens.rows

unfoldable pub count_org_tokens : Db → ℕ → ℕ
count_org_tokens db org_id = affected (λ t. t.org_id == org_id) db.org_tokens.rows

unfoldable pub scopes_have : List Text → Text → Bool
scopes_have [] scope = false
scopes_have (s ∷ ss) scope = text_eq s scope_global || text_eq s scope || scopes_have ss scope

unfoldable pub has_scope : TokenInfo → Text → Bool
unfolding scopes_have
has_scope info scope = scopes_have info.scopes scope

unfoldable pub can_write : TokenInfo → Bool
unfolding has_scope
can_write info = has_scope info scope_global || has_scope info scope_read_write

unfoldable pub can_read : TokenInfo → Bool
unfolding has_scope
can_read info =
    has_scope info scope_global || has_scope info scope_read_write || has_scope info scope_read
