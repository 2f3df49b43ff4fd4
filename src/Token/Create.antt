-- ===== src/Token/Create.antt =====
-- Making tokens: `generateRawToken`, `CreateUserToken`, `CreateOrgToken`, `CreateAdminToken`, and
-- the revocations.
use caspaste.Prelude.{
  ℕ, ◌+◌, ◌-◌, ◌/◌, ◌%◌, ltb, ◌==◌, ◌&&◌, Bool, if◌then◌else◌, Option, none, some, List, [], ◌∷◌,
  ◌++◌, Text, codes, take, join_with,
}
use caspaste.Prelude.Int.{ℤ}
use caspaste.Prelude.Table.{Outcome, affected, update, delete}
use caspaste.Token.Model.{
  Token, Table, Db, Admin, Error, Result, ok, err, no_randomness, driver, token_not_found,
  prefix_user, prefix_org, prefix_adm, insert_token,
}

-- A digit of `hex.EncodeToString`.
abbrev hex_digit : ℕ → ℕ
hex_digit n = if ltb n 10 then b'0' + n else b'a' + (n - 10)

abbrev pub hex_encode : Text → Text
hex_encode [] = []
hex_encode (b ∷ bs) = hex_digit (b / 16) ∷ hex_digit (b % 16) ∷ hex_encode bs

-- `rand.Read` fills the slice with bytes, or fails.
unfoldable pub generate_raw_token : Option Text → Result Text
generate_raw_token none = err no_randomness
generate_raw_token (some bytes) = ok (hex_encode bytes)

-- `fullToken[:12] + "..."`.
abbrev pub display_prefix : Text → Text
display_prefix t = take 12 t ++ codes "..."

-- The row that `CreateUserToken` inserts.
abbrev pub user_row : ℕ → Text → List Text → Option ℤ → ℕ → Text → Text → Token
user_row user_id name scopes expires_at now full_token hash = record {
  id = 0;
  owner_id = user_id;
  org_id = 0;
  created_by = 0;
  name = name;
  token_prefix = display_prefix full_token;
  token_hash = hash;
  scopes = join_with (codes ",") scopes;
  last_used_at = none;
  expires_at = expires_at;
  created_at = now;
}

abbrev pub org_row : ℕ → ℕ → Text → List Text → Option ℤ → ℕ → Text → Text → Token
org_row org_id created_by name scopes expires_at now full_token hash = record {
  id = 0;
  owner_id = 0;
  org_id = org_id;
  created_by = created_by;
  name = name;
  token_prefix = display_prefix full_token;
  token_hash = hash;
  scopes = join_with (codes ",") scopes;
  last_used_at = none;
  expires_at = expires_at;
  created_at = now;
}

-- The `Token` that the caller gets has the row's id and no hash.
abbrev pub returned : Token → Table → Token
returned t table = record t { id = table.last_id; token_hash = [] }

unfoldable pub store_user : Result Table → Db → Text → Token → Db × Result (Text × Token)
store_user (err e) db full_token t = (db, err e)
store_user (ok table) db full_token t =
    (record db { user_tokens = table }, ok (full_token, returned t table))

unfoldable pub store_org : Result Table → Db → Text → Token → Db × Result (Text × Token)
store_org (err e) db full_token t = (db, err e)
store_org (ok table) db full_token t =
    (record db { org_tokens = table }, ok (full_token, returned t table))

module _ (hash_token : Text → Text) where
  unfoldable pub create_user_with :
      Result Text → Outcome → ℕ → Db → ℕ → Text → List Text → Option ℤ → Db × Result (Text × Token)
  unfolding store_user
  create_user_with (err e) o now db user_id name scopes expires_at = (db, err e)
  create_user_with (ok raw) o now db user_id name scopes expires_at =
      let full_token = prefix_user ++ raw in
      let t = user_row user_id name scopes expires_at now full_token (hash_token full_token) in
      store_user (insert_token o t db.user_tokens) db full_token t

  unfoldable pub create_user_token :
      Option Text → Outcome → ℕ → Db → ℕ → Text → List Text → Option ℤ → Db × Result (Text × Token)
  unfolding create_user_with
  create_user_token random o now db user_id name scopes expires_at =
      create_user_with (generate_raw_token random) o now db user_id name scopes expires_at

  unfoldable pub create_org_with :
      Result Text
      → Outcome
      → ℕ
      → Db
      → ℕ
      → ℕ
      → Text
      → List Text
      → Option ℤ
      → Db × Result (Text × Token)
  unfolding store_org
  create_org_with (err e) o now db org_id created_by name scopes expires_at = (db, err e)
  create_org_with (ok raw) o now db org_id created_by name scopes expires_at =
      let full_token = prefix_org ++ raw in
      let t =
        org_row org_id created_by name scopes expires_at now full_token (hash_token full_token) in
      store_org (insert_token o t db.org_tokens) db full_token t

  unfoldable pub create_org_token :
      Option Text
      → Outcome
      → ℕ
      → Db
      → ℕ
      → ℕ
      → Text
      → List Text
      → Option ℤ
      → Db × Result (Text × Token)
  unfolding create_org_with
  create_org_token random o now db org_id created_by name scopes expires_at =
      create_org_with (generate_raw_token random) o now db org_id created_by name scopes expires_at

abbrev pub is_admin : ℕ → Admin → Bool
is_admin id a = a.id == id

-- `UPDATE admins SET api_token_hash = ?, updated_at = ? WHERE id = ?` and the check of its rows.
abbrev pub set_admin_hash : Option Text → ℕ → Admin → Admin
set_admin_hash hash now a = record a { api_token_hash = hash; updated_at = now }

unfoldable pub update_admin : Outcome → ℕ → Db → ℕ → Option Text → Db × Option Error
update_admin (some e) now db admin_id hash = (db, some (driver e))
update_admin none now db admin_id hash = (
  record db { admins = update (set_admin_hash hash now) (is_admin admin_id) db.admins },
  if affected (is_admin admin_id) db.admins == 0 then some token_not_found else none,
)

abbrev pub finish : Text → Option Error → Result Text
finish t none = ok t
finish t (some e) = err e

module _ (hash_token : Text → Text) where
  unfoldable pub create_admin_with : Result Text → Outcome → ℕ → Db → ℕ → Db × Result Text
  create_admin_with (err e) o now db admin_id = (db, err e)
  create_admin_with (ok raw) o now db admin_id =
      let full_token = prefix_adm ++ raw in
      let (db', e) = update_admin o now db admin_id (some (hash_token full_token)) in
      (db', finish full_token e)

  unfoldable pub create_admin_token : Option Text → Outcome → ℕ → Db → ℕ → Db × Result Text
  unfolding create_admin_with
  create_admin_token random o now db admin_id =
      create_admin_with (generate_raw_token random) o now db admin_id

unfoldable pub revoke_admin_token : Outcome → ℕ → Db → ℕ → Db × Option Error
revoke_admin_token o now db admin_id = update_admin o now db admin_id none

-- `id = ? AND user_id = ?`.
abbrev pub is_user_token : ℕ → ℕ → Token → Bool
is_user_token id user_id t = t.id == id && t.owner_id == user_id

-- `id = ? AND org_id = ?`.
abbrev pub is_org_token : ℕ → ℕ → Token → Bool
is_org_token id org_id t = t.id == id && t.org_id == org_id

unfoldable pub revoke_user_token : Outcome → Db → ℕ → ℕ → Db × Option Error
revoke_user_token (some e) db token_id user_id = (db, some (driver e))
revoke_user_token none db token_id user_id =
    let rows = db.user_tokens.rows in
    (
      record db {
        user_tokens = record (db.user_tokens) {
          rows = delete (is_user_token token_id user_id) rows;
        };
      },
      if affected (is_user_token token_id user_id) rows == 0 then some token_not_found else none,
    )

unfoldable pub revoke_org_token : Outcome → Db → ℕ → ℕ → Db × Option Error
revoke_org_token (some e) db token_id org_id = (db, some (driver e))
revoke_org_token none db token_id org_id =
    let rows = db.org_tokens.rows in
    (
      record db {
        org_tokens = record (db.org_tokens) { rows = delete (is_org_token token_id org_id) rows };
      },
      if affected (is_org_token token_id org_id) rows == 0 then some token_not_found else none,
    )
