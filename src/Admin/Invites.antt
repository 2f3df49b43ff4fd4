-- ===== src/Admin/Invites.antt =====
-- How many administrators an invitation makes.
use caspaste.Prelude.{
  ℕ, ◌+◌, ◌≤◌, ◌≡◌, refl, ◌==◌, Bool, false, Bool-cases, inl, inr, Option, none, some, List, [],
  ◌∷◌, Text, length, length-append, arith,
}
use caspaste.Prelude.Table.{Outcome, update, affected}
use caspaste.Password
use caspaste.Password.Argon.{IdKey, Run, done, panic, hash_password}
use caspaste.Admin.{
  AdminRecord, InviteRecord, Panel, Error, Result, insert_admin, has_username, has_token, is_unused,
  is_open, use_at, accepted, marked, hashed, accept_admin_invite,
}

-- One attempt to take an invitation: what its statements come to, the salt, the time, and the form.
pub record Attempt : Type 0 where
  pub first : Outcome
  pub second : Outcome
  pub salt : Option Text
  pub now : ℕ
  pub username : Text
  pub password : Text
  pub email : Text

-- What the update marks was unused, and is not afterwards.
unused-update :
    (hash : Text) (now : ℕ) (rows : List InviteRecord)
    → affected (is_unused hash) (update (use_at now) (is_open hash now) rows)
        + affected (is_open hash now) rows
      ≡ affected (is_unused hash) rows
unfolding affected update
unused-update hash now [] = refl
unused-update hash now (r ∷ rs) = ground (arith, unused-update hash now rs)

insert_admin-length :
    (o : Outcome) (name hash email : Text) (rows : List AdminRecord)
    → length (insert_admin o name hash email rows).0 ≤ length rows + 1
insert_admin-length (some e) name hash email rows = omega arith
insert_admin-length none name hash email rows =
    elim (Bool-cases (affected (has_username name) rows == 0)) [
      | inl e ↦ rw e (omega (arith, length-append rows (_ ∷ [])))
      | inr e ↦ rw e (omega arith)
    ]

positive : (n : ℕ) → (n == 0) ≡ false → 1 ≤ n
positive n h = ground (arith, h)

abbrev measure : Text → Panel → ℕ
measure hash p = length p.admins + affected (is_unused hash) p.invites

module _ (id_key : IdKey) (bcrypt : Text → Text → Bool) (digest : Text → Text) where
  abbrev state : Run (Panel × Result Bool) → Panel → Panel
  state panic p = p
  state (done (p', r)) p = p'

  -- The attempts with one token, in turn; a panic ends its request alone.
  unfoldable pub accept_all : Text → List Attempt → Panel → Panel
  accept_all raw [] p = p
  accept_all raw (a ∷ attempts) p = accept_all raw attempts (
      state
        (accept_admin_invite id_key bcrypt digest a.first a.second a.salt a.now p raw a.username
          a.password a.email)
        p)

  accepted-admins :
      (p : Panel) (r : List AdminRecord × Option Error)
      → (accepted id_key bcrypt digest p r).0 ≡ record p { admins = r.0 }
  accepted-admins p (admins, none) = refl
  accepted-admins p (admins, some e) = refl

  marked-measure :
      (o₁ o₂ : Outcome) (now : ℕ) (p : Panel) (raw name hash email : Text)
      → measure (digest raw) (marked id_key bcrypt digest o₁ o₂ now p raw name hash email).0
        ≤ measure (digest raw) p
  marked-measure (some e) o₂ now p raw name hash email = omega arith
  marked-measure none o₂ now p raw name hash email =
      let test = is_open (digest raw) now in
      let p' = record p { invites = update (use_at now) test p.invites } in
      let moved = unused-update (digest raw) now p.invites in
      elim (Bool-cases (affected test p.invites == 0)) [
        | inl z ↦ rw z (omega (arith, moved))
        | inr f ↦ rw f (
            rw (accepted-admins p' (insert_admin o₂ name hash email p'.admins)) (
              omega (
                arith,
                moved,
                positive (affected test p.invites) f,
                insert_admin-length o₂ name hash email p'.admins,
              )))
      ]

  hashed-measure :
      (o₁ o₂ : Outcome) (now : ℕ) (p : Panel) (raw name email : Text)
      (r : Run (Password.Entries.Result Text))
      → measure (digest raw) (state (hashed id_key bcrypt digest o₁ o₂ now p raw name email r) p)
        ≤ measure (digest raw) p
  hashed-measure o₁ o₂ now p raw name email panic = omega arith
  hashed-measure o₁ o₂ now p raw name email (done (Password.Entries.err e)) = omega arith
  hashed-measure o₁ o₂ now p raw name email (done (Password.Entries.ok hash)) =
      marked-measure o₁ o₂ now p raw name hash email

  accept_all-measure :
      (raw : Text) (attempts : List Attempt) (p : Panel)
      → measure (digest raw) (accept_all raw attempts p) ≤ measure (digest raw) p
  unfolding accept_all accept_admin_invite
  accept_all-measure raw [] p = omega arith
  accept_all-measure raw (a ∷ attempts) p =
      let r = hash_password id_key a.salt a.password in
      let p' =
        state (hashed id_key bcrypt digest a.first a.second a.now p raw a.username a.email r) p in
      omega (
        arith,
        hashed-measure a.first a.second a.now p raw a.username a.email r,
        accept_all-measure raw attempts p',
      )

  unused-le :
      (hash : Text) (rows : List InviteRecord)
      → affected (is_unused hash) rows ≤ affected (has_token hash) rows
  unfolding affected
  unused-le hash [] = omega arith
  unused-le hash (r ∷ rs) = ground (arith, unused-le hash rs)

  -- However often an invitation is taken up, by whatever names, at whatever times and whatever the
  -- statements come to, it makes at most one administrator. No two invitations have one digest.
  pub accept_all-one_admin :
      (raw : Text) (attempts : List Attempt) (p : Panel)
      → affected (has_token (digest raw)) p.invites ≤ 1
      → length (accept_all raw attempts p).admins ≤ length p.admins + 1
  accept_all-one_admin raw attempts p unique =
      omega (arith, accept_all-measure raw attempts p, unused-le (digest raw) p.invites, unique)
