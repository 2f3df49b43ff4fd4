-- ===== src/Session.antt =====
-- src/session/session.go: the sessions of users. Clock readings are in nanoseconds since the epoch;
-- SHA-256 with its hexadecimal form is the parameter `hash_token`; random bytes and what became of
-- each statement are arguments. Durations are not negative.
mod Accept
mod Logout
mod Tests
use caspaste.Prelude.{
  ℕ, ◌+◌, ◌*◌, ◌/◌, ◌^◌, ltb, ◌==◌, ◌&&◌, not, Bool, true, false, if◌then◌else◌, Option, none, some,
  List, [], ◌∷◌, ◌++◌, Text, text_eq,
}
use caspaste.Prelude.Table.Newest.{newest_first}
use caspaste.Prelude.Table.{select, Outcome, affected, update, delete, select_row}

pub data Error : Type 0 where
  session_not_found session_expired invalid_token : Error
  no_randomness unique_violation : Error
  driver : ℕ → Error

pub data Result {ℓ} (A : Type ℓ) : Type ℓ where
  ok : A → Result A
  err : Error → Result A

pub record Session : Type 0 where
  pub id : ℕ
  pub user_id : ℕ
  pub token_hash : Text
  pub device : Text
  pub ip_address : Text
  pub user_agent : Text
  pub expires_at : ℕ
  pub created_at : ℕ

-- The service, with the table `user_sessions` behind its `db` and the last id given out.
pub record Service : Type 0 where
  pub rows : List Session
  pub last_id : ℕ
  pub duration : ℕ

abbrev pub nanos : ℕ
nanos = 10 ^ 9

-- `Unix()`.
abbrev pub unix : ℕ → ℕ
unix t = t / nanos

abbrev pub default_session_duration : ℕ
default_session_duration = 30 * 24 * 3600 * nanos

pub new_service : List Session → ℕ → Service
new_service rows last_id = record {
  rows = rows;
  last_id = last_id;
  duration = default_session_duration;
}

pub set_duration : Service → ℕ → Service
set_duration s d = record s { duration = d }

abbrev pub has_hash : Text → Session → Bool
has_hash h r = text_eq r.token_hash h

-- `session.ExpiresAt < time.Now().Unix()`.
abbrev pub is_expired : ℕ → Session → Bool
is_expired now r = ltb r.expires_at (unix now)

insert_session : Outcome → Session → Service → Service × Option Error
insert_session (some e) r s = (s, some (driver e))
insert_session none r s =
    if affected (has_hash r.token_hash) s.rows == 0
    then (
      record s { rows = s.rows ++ record r { id = s.last_id + 1 } ∷ []; last_id = s.last_id + 1 },
      none,
    )
    else (s, some unique_violation)

abbrev result_of {ℓ} : {A : Type ℓ} → A → Option Error → Result A
result_of a none = ok a
result_of a (some e) = err e

-- A deletion and its error.
abbrev pub delete_where : Outcome → (Session → Bool) → Service → Service × Option Error
delete_where (some e) test s = (s, some (driver e))
delete_where none test s = (record s { rows = delete test s.rows }, none)

-- `DeleteByID`.
pub delete_by_id : Outcome → Service → ℕ → Service × Option Error
delete_by_id o s id = delete_where o (λ r. r.id == id) s

pub delete_all_for_user : Outcome → Service → ℕ → Service × Option Error
delete_all_for_user o s user_id = delete_where o (λ r. r.user_id == user_id) s

-- The column `token_hash` is not read.
abbrev pub listed : List Session → List Session
listed [] = []
listed (r ∷ rs) = record r { token_hash = [] } ∷ listed rs

abbrev pub created : Session → ℕ
created r = r.created_at

unfoldable pub list_for_user : Outcome → Service → ℕ → Result (List Session)
list_for_user (some e) s user_id = err (driver e)
list_for_user none s user_id =
    ok (listed (newest_first created (select (λ r. r.user_id == user_id) s.rows)))

-- The result is the number of the rows deleted.
unfoldable pub cleanup_expired : Outcome → ℕ → Service → Service × Result ℕ
cleanup_expired (some e) now s = (s, err (driver e))
cleanup_expired none now s =
    (record s { rows = delete (is_expired now) s.rows }, ok (affected (is_expired now) s.rows))

module _ (hash_token : Text → Text) where
  -- The row that `Create` inserts; the clock is read twice.
  abbrev pub new_row : Service → Text → ℕ → ℕ → ℕ → Text → Text → Text → Session
  new_row s token now now' user_id device ip_address user_agent = record {
    id = 0;
    user_id = user_id;
    token_hash = hash_token token;
    device = device;
    ip_address = ip_address;
    user_agent = user_agent;
    expires_at = unix (now' + s.duration);
    created_at = unix now;
  }

  -- `generateToken` gives the token or the error of `rand.Read`.
  unfoldable pub create :
      Option Text → Outcome → ℕ → ℕ → Service → ℕ → Text → Text → Text → Service × Result Text
  unfolding insert_session
  create none o now now' s user_id device ip_address user_agent = (s, err no_randomness)
  create (some token) o now now' s user_id device ip_address user_agent =
      let (s', e) =
        insert_session o (new_row s token now now' user_id device ip_address user_agent) s in
      (s', result_of token e)

  unfoldable pub delete_token : Outcome → Service → Text → Service × Option Error
  delete_token o s token = delete_where o (has_hash (hash_token token)) s

  unfoldable pub validate_row :
      Option Session → Outcome → ℕ → Service → Text → Service × Result Session
  unfolding delete_token
  validate_row none o₂ now s token = (s, err session_not_found)
  validate_row (some r) o₂ now s token =
      if is_expired now r then ((delete_token o₂ s token).0, err session_expired) else (s, ok r)

  -- `o₂` is for the deletion of an expired session, whose error is dropped.
  unfoldable pub validate : Outcome → Outcome → ℕ → Service → Text → Service × Result Session
  unfolding validate_row
  validate o₁ o₂ now s [] = (s, err invalid_token)
  validate (some e) o₂ now s (c ∷ token) = (s, err (driver e))
  validate none o₂ now s (c ∷ token) =
      validate_row (select_row (has_hash (hash_token (c ∷ token))) s.rows) o₂ now s (c ∷ token)

  abbrev user_of : Result Session → Result ℕ
  user_of (ok r) = ok r.user_id
  user_of (err e) = err e

  -- `GetUserID`.
  pub get_user_id : Outcome → Outcome → ℕ → Service → Text → Service × Result ℕ
  get_user_id o₁ o₂ now s token = let (s', r) = validate o₁ o₂ now s token in (s', user_of r)

  -- `user_id = ? AND token_hash != ?`.
  abbrev pub is_other : ℕ → Text → Session → Bool
  is_other user_id token r = r.user_id == user_id && not (has_hash (hash_token token) r)

  unfoldable pub delete_all_except : Outcome → Service → ℕ → Text → Service × Option Error
  delete_all_except o s user_id current_token = delete_where o (is_other user_id current_token) s

  unfoldable pub extend : Outcome → ℕ → Service → Text → Service × Option Error
  extend (some e) now s token = (s, some (driver e))
  extend none now s token =
      let expires_at = unix (now + s.duration) in
      (
        record s {
          rows =
              update (λ r. record r { expires_at = expires_at }) (has_hash (hash_token token))
                s.rows;
        },
        none,
      )
