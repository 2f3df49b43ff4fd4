-- ===== src/Admin/Tests.antt =====
-- An invitation that is taken up twice. The hashes of these runs hide nothing.
use caspaste.Prelude.{
  ◌≡◌, ◌≤◌, refl, false, none, some, List, [], ◌∷◌, Bool, Text, text_eq, codes, length, arith,
}
use caspaste.Prelude.Base64.{raw_base64}
use caspaste.Prelude.Table.{affected, update}
use caspaste.Password.Argon.{IdKey, hash_password}
use caspaste.Admin.{Panel, accept_admin_invite}
use caspaste.Admin.Invites.{Attempt, accept_all, accept_all-one_admin}

key : IdKey
key password salt time memory threads len = some password

no_bcrypt : Text → Text → Bool
no_bcrypt hash password = false

abbrev digest : Text → Text
digest t = t

abbrev panel : Panel
panel = record {
  admins = [];
  invites =
      record { token_hash = codes "token"; created_by = 1; expires_at = 500; used_at = none } ∷ [];
}

abbrev attempt_by : Text → Attempt
attempt_by name = record {
  first = none;
  second = none;
  salt = some (codes "salt");
  now = 100;
  username = name;
  password = codes "p";
  email = [];
}

abbrev attempts : List Attempt
attempts = attempt_by (codes "a") ∷ attempt_by (codes "b") ∷ []

accept_all-run : length (accept_all key no_bcrypt digest (codes "token") attempts panel).admins ≡ 1
unfolding accept_all accept_admin_invite hash_password key affected update text_eq raw_base64
accept_all-run = refl

accept_all-one_admin_example :
    length (accept_all key no_bcrypt digest (codes "token") attempts panel).admins ≤ 1
unfolding affected text_eq
accept_all-one_admin_example =
    accept_all-one_admin key no_bcrypt digest (codes "token") attempts panel (omega arith)
