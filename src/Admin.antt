-- ===== src/Admin.antt =====
-- src/admin/db.go: the accounts of administrators and the invitations to become one. `id_key` and
-- `bcrypt` are the two hashes of passwords, `digest` is SHA-256 in hexadecimal. Ids and times of
-- creation, which the database gives, are left out of the rows.
mod Invites
mod Tests
use caspaste.Prelude.{
  ℕ, ◌+◌, ◌*◌, ltb, ◌==◌, ◌&&◌, Bool, true, false, if◌then◌else◌, Option, none, some, List, [], ◌∷◌,
  ◌++◌, Text, text_eq, codes,
}
use caspaste.Prelude.Table.{Outcome, select_row, update, affected}
use caspaste.Password
use caspaste.Password.Argon.{IdKey, Run, done, panic, hash_password}
use caspaste.Password.Accounts.{check}
use caspaste.Totp.Recovery.{hex}

pub record AdminRecord : Type 0 where
  pub username : Text
  pub password_hash : Text
  pub email : Text
  pub role : Text
  pub enabled : Bool

-- `used_at` is `none` for NULL.
pub record InviteRecord : Type 0 where
  pub token_hash : Text
  pub created_by : ℕ
  pub expires_at : ℕ
  pub used_at : Option ℕ

pub record Panel : Type 0 where
  pub admins : List AdminRecord
  pub invites : List InviteRecord

pub data Error : Type 0 where
  not_hashed no_randomness unique_violation : Error
  driver : ℕ → Error

pub data Result {ℓ} (A : Type ℓ) : Type ℓ where
  ok : A → Result A
  err : Error → Result A

abbrev pub has_username : Text → AdminRecord → Bool
has_username name a = text_eq a.username name

-- `INSERT INTO admins`, whose column of user names is unique.
abbrev pub insert_admin :
    Outcome → Text → Text → Text → List AdminRecord → List AdminRecord × Option Error
insert_admin (some e) name hash email rows = (rows, some (driver e))
insert_admin none name hash email rows =
    if affected (has_username name) rows == 0
    then (
      rows
          ++ record {
            username = name;
            password_hash = hash;
            email = email;
            role = codes "admin";
            enabled = true;
          }
            ∷ [],
      none,
    )
    else (rows, some unique_violation)

abbrev pub is_active : Text → AdminRecord → Bool
is_active name a = has_username name a && a.enabled

unfoldable pub get_admin : Outcome → Panel → Text → Result (Option AdminRecord)
get_admin (some e) p name = err (driver e)
get_admin none p name = ok (select_row (is_active name) p.admins)

abbrev is_enabled : AdminRecord → Bool
is_enabled a = a.enabled

unfoldable pub count_admins : Outcome → Panel → Result ℕ
count_admins (some e) p = err (driver e)
count_admins none p = ok (affected is_enabled p.admins)

abbrev pub has_token : Text → InviteRecord → Bool
has_token hash i = text_eq i.token_hash hash

abbrev pub is_unused : Text → InviteRecord → Bool
is_unused hash i = has_token hash i && elim i.used_at [ none ↦ true | some t ↦ false ]

-- `token_hash = ? AND used_at IS NULL AND expires_at > ?`.
abbrev pub is_open : Text → ℕ → InviteRecord → Bool
is_open hash now i = is_unused hash i && ltb now i.expires_at

abbrev pub use_at : ℕ → InviteRecord → InviteRecord
use_at now i = record i { used_at = some now }

module _ (id_key : IdKey) (bcrypt : Text → Text → Bool) (digest : Text → Text) where
  abbrev pub created :
      Outcome
      → Panel
      → Text
      → Text
      → Run (Password.Entries.Result Text)
      → Run (Panel × Option Error)
  created o p name email panic = panic
  created o p name email (done (Password.Entries.err e)) = done (p, some not_hashed)
  created o p name email (done (Password.Entries.ok hash)) =
      let (admins, e) = insert_admin o name hash email p.admins in
      done (record p { admins = admins }, e)

  unfoldable pub create_admin :
      Outcome → Option Text → Panel → Text → Text → Text → Run (Panel × Option Error)
  create_admin o salt p name password email =
      created o p name email (hash_password id_key salt password)

  abbrev verified : AdminRecord → Run Bool → Run (Result (Option AdminRecord))
  verified a panic = panic
  verified a (done matches) = done (ok (if matches then some a else none))

  abbrev of_admin : Text → Result (Option AdminRecord) → Run (Result (Option AdminRecord))
  of_admin password (err e) = done (err e)
  of_admin password (ok none) = done (ok none)
  of_admin password (ok (some a)) =
      verified a (check id_key bcrypt ((a.username, a.password_hash) ∷ []) a.username password)

  -- The administrator, or `none` for a wrong name or password.
  unfoldable pub verify_password : Outcome → Panel → Text → Text → Run (Result (Option AdminRecord))
  unfolding get_admin
  verify_password o p name password = of_admin password (get_admin o p name)

  abbrev invited : Outcome → Panel → InviteRecord → Text → Panel × Result Text
  invited (some e) p i raw = (p, err (driver e))
  invited none p i raw =
      if affected (has_token i.token_hash) p.invites == 0
      then (record p { invites = p.invites ++ i ∷ [] }, ok raw)
      else (p, err unique_violation)

  -- The raw token. `random` is 32 random bytes or the error of reading them.
  unfoldable pub create_admin_invite :
      Outcome → Option Text → Panel → ℕ → ℕ → ℕ → Panel × Result Text
  unfolding hex
  create_admin_invite o none p by now hours = (p, err no_randomness)
  create_admin_invite o (some random) p by now hours =
      invited o p
        (record {
          token_hash = digest (hex random);
          created_by = by;
          expires_at = now + hours * 3600;
          used_at = none;
        })
        (hex random)

  unfoldable pub get_admin_invite_by_token :
      Outcome → ℕ → Panel → Text → Result (Option InviteRecord)
  get_admin_invite_by_token (some e) now p raw = err (driver e)
  get_admin_invite_by_token none now p raw = ok (select_row (is_open (digest raw) now) p.invites)

  abbrev pub accepted : Panel → List AdminRecord × Option Error → Panel × Result Bool
  accepted p (admins, none) = (record p { admins = admins }, ok true)
  accepted p (admins, some e) = (record p { admins = admins }, err e)

  abbrev pub marked :
      Outcome → Outcome → ℕ → Panel → Text → Text → Text → Text → Panel × Result Bool
  marked (some e) o₂ now p raw name hash email = (p, err (driver e))
  marked none o₂ now p raw name hash email =
      let test = is_open (digest raw) now in
      let p' = record p { invites = update (use_at now) test p.invites } in
      if affected test p.invites == 0
      then (p', ok false)
      else accepted p' (insert_admin o₂ name hash email p'.admins)

  abbrev pub hashed :
      Outcome
      → Outcome
      → ℕ
      → Panel
      → Text
      → Text
      → Text
      → Run (Password.Entries.Result Text)
      → Run (Panel × Result Bool)
  hashed o₁ o₂ now p raw name email panic = panic
  hashed o₁ o₂ now p raw name email (done (Password.Entries.err e)) = done (p, err not_hashed)
  hashed o₁ o₂ now p raw name email (done (Password.Entries.ok hash)) =
      done (marked o₁ o₂ now p raw name hash email)

  -- Whether the invitation was taken, and what the update and the insertion come to.
  unfoldable pub accept_admin_invite :
      Outcome
      → Outcome
      → Option Text
      → ℕ
      → Panel
      → Text
      → Text
      → Text
      → Text
      → Run (Panel × Result Bool)
  accept_admin_invite o₁ o₂ salt now p raw name password email =
      hashed o₁ o₂ now p raw name email (hash_password id_key salt password)
