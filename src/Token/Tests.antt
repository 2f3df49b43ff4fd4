-- ===== src/Token/Tests.antt =====
-- Runs of the token service, and its theorems at a small database. The hash of the tests is the
-- token with one byte in front.
use caspaste.Prelude.{
  ◌↔◌, ℕ, ◌≡◌, refl, true, Option, none, some, [], ◌∷◌, Text, codes, text_eq, text_eq_iff,
  has_prefix, arith, List, length, All,
}
use caspaste.Prelude.Int.{ℤ, pos}
use caspaste.Prelude.Table.{select_row, affected, select}
use caspaste.Prelude.Table.Newest.{newest_first, insert_newest, Descending}
use caspaste.Token.Model.{Token, user, Db, Admin, ok, err, token_expired, token_not_found}
use caspaste.Token.Create.{revoke_user_token, user_row}
use caspaste.Token.Validate.{
  validate, validate_user_token, validate_org_token, validate_admin_token, cleanup_expired,
  user_info, admin_info, count_user_tokens,
}
use caspaste.Token.Listing.{created, listed_user, list_user_tokens, list_user_tokens-count}
use caspaste.Token.Scopes.{Accepts, prefix_of, validate-prefix_of, validate_admin_token-Accepts}
use caspaste.Token.Cleanup.{UniqueHashes, forget_expired, validate-cleanup_expired}
use caspaste.Token.Revoke.{IsRevoked, validate-revoke_user_token}

abbrev hash : Text → Text
hash t = b'#' ∷ t

abbrev stored : ℕ → ℕ → Text → Option ℤ → Token
stored id owner hashed expires = record {
  id = id;
  owner_id = owner;
  org_id = 0;
  created_by = 0;
  name = codes "n";
  token_prefix = [];
  token_hash = hashed;
  scopes = codes "read,read-write";
  last_used_at = none;
  expires_at = expires;
  created_at = 1;
}

abbrev reader : Admin
reader = record {
  id = 9;
  username = codes "root";
  role = codes "readonly";
  enabled = 1;
  api_token_hash = some (codes "#adm_1");
  locked_until = some (pos 40);
  updated_at = 0;
}

abbrev db : Db
db = record {
  user_tokens = record {
    rows = stored 1 7 (codes "#usr_1") none ∷ stored 2 7 (codes "#usr_2") (some (pos 50)) ∷ [];
    last_id = 2;
  };
  org_tokens = record { rows = []; last_id = 0 };
  admins = reader ∷ [];
}

validate_examples :
    ((validate hash none none 60 db (codes "usr_1")).1
      ≡ ok (user_info (stored 1 7 (codes "#usr_1") none)))
    × ((validate hash none none 60 db (codes "usr_2")).1 ≡ err token_expired)
    × ((validate hash none none 60 db (codes "org_1")).1 ≡ err token_not_found)
    × (validate_admin_token none 60 db (codes "#adm_1") ≡ ok (admin_info reader))
unfolding validate validate_user_token validate_org_token validate_admin_token has_prefix text_eq
    select_row
validate_examples = (refl, refl, refl, refl)

db-UniqueHashes : UniqueHashes db
unfolding affected
db-UniqueHashes = record {
  users = λ h. ground (arith, text_eq_iff (codes "#usr_1") h, text_eq_iff (codes "#usr_2") h);
  orgs = λ h. omega arith;
}

validate-cleanup_expired_run :
    (validate hash none none 60 (cleanup_expired none none 60 db).0 (codes "usr_2")).1
    ≡ forget_expired (validate hash none none 60 db (codes "usr_2")).1
validate-cleanup_expired_run =
    validate-cleanup_expired hash none 60 db (codes "usr_2") db-UniqueHashes

validate-revoke_user_token_example :
    ((validate_user_token none none 60 (revoke_user_token none db 2 7).0 (codes "#usr_1")).1
      ≡ ok (user_info (stored 1 7 (codes "#usr_1") none)))
    ↔ (¬ IsRevoked 2 7 (user_info (stored 1 7 (codes "#usr_1") none)))
unfolding validate_user_token text_eq select_row
validate-revoke_user_token_example =
    validate-revoke_user_token none 60 db 2 7 (codes "#usr_1")
      (user_info (stored 1 7 (codes "#usr_1") none)) refl

validate-prefix_of_run : has_prefix (prefix_of user) (codes "usr_1") ≡ true
unfolding validate validate_user_token has_prefix text_eq select_row
validate-prefix_of_run =
    validate-prefix_of hash none none 60 db (codes "usr_1")
      (user_info (stored 1 7 (codes "#usr_1") none)) refl

validate_admin_token-Accepts_example : Accepts 60 db (codes "#adm_1") (admin_info reader)
unfolding validate_admin_token text_eq select_row
validate_admin_token-Accepts_example =
    validate_admin_token-Accepts none 60 db (codes "#adm_1") (admin_info reader) refl

abbrev made : Token
made =
    record (user_row 5 (codes "ci") (codes "read" ∷ []) (some (pos 70)) 10 (codes "usr_000b") []) {
      id = 3;
    }

abbrev newest : List Token
newest =
    listed_user (stored 1 7 (codes "#usr_1") none)
    ∷ listed_user (stored 2 7 (codes "#usr_2") (some (pos 50)))
    ∷ []

listed_tokens : list_user_tokens none db 7 ≡ ok newest
unfolding list_user_tokens select newest_first insert_newest
listed_tokens = refl

list_user_tokens-count_run :
    (length newest ≡ count_user_tokens db 7)
    × All (λ t. (t.owner_id ≡ 7) × (t.token_hash ≡ [])) newest
    × Descending created newest
list_user_tokens-count_run = list_user_tokens-count none db 7 newest listed_tokens
