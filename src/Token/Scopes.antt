-- ===== src/Token/Scopes.antt =====
-- Who may do what: the kinds of tokens, the scopes, and the roles of admins.
use caspaste.Prelude.{
  ℕ, ◌≡◌, refl, true, false, not, ◌⊎◌, inl, inr, Option, none, some, List, [], ◌∷◌, Text, text_eq,
  text_eq_iff, codes, has_prefix, arith,
}
use caspaste.Prelude.Table.{Outcome, select_row}
use caspaste.Token.Model.{
  Token, TokenInfo, TokenType, user, org, admin, Db, Admin, Result, ok, err, prefix_user,
  prefix_org, prefix_adm, scope_global, scope_read,
}
use caspaste.Token.Validate.{
  validate, validate_user_token, validate_org_token, validate_admin_token, user_row_info,
  org_row_info, admin_row_info, admin_info, is_locked, has_api_hash, has_scope, scopes_have,
  can_read, can_write, role_scopes,
}

-- The prefix that belongs to a type.
abbrev pub prefix_of : TokenType → Text
prefix_of user = prefix_user
prefix_of org = prefix_org
prefix_of admin = prefix_adm

abbrev HasType : TokenType → Result TokenInfo → Type 0
HasType k (err e) = Unit
HasType k (ok info) = info.type ≡ k

user_row-HasType :
    (row : Option Token) (o₂ : Outcome) (now : ℕ) (db : Db)
    → HasType user (user_row_info row o₂ now db).1
unfolding user_row_info
user_row-HasType none o₂ now db = tt
user_row-HasType (some t) o₂ now db = ground arith

user-HasType :
    (o₁ o₂ : Outcome) (now : ℕ) (db : Db) (h : Text)
    → HasType user (validate_user_token o₁ o₂ now db h).1
unfolding validate_user_token
user-HasType (some e) o₂ now db h = tt
user-HasType none o₂ now db h = user_row-HasType _ o₂ now db

org_row-HasType :
    (row : Option Token) (o₂ : Outcome) (now : ℕ) (db : Db)
    → HasType org (org_row_info row o₂ now db).1
unfolding org_row_info
org_row-HasType none o₂ now db = tt
org_row-HasType (some t) o₂ now db = ground arith

org-HasType :
    (o₁ o₂ : Outcome) (now : ℕ) (db : Db) (h : Text)
    → HasType org (validate_org_token o₁ o₂ now db h).1
unfolding validate_org_token
org-HasType (some e) o₂ now db h = tt
org-HasType none o₂ now db h = org_row-HasType _ o₂ now db

-- An enabled admin without a lock that still holds.
pub record Accepts (now : ℕ) (db : Db) (hash : Text) (info : TokenInfo) : Type 0 where
  pub account : Admin
  pub found : select_row (has_api_hash hash) db.admins ≡ some account
  pub enabled : account.enabled ≡ 1
  pub unlocked : is_locked now account ≡ false
  pub info_is : info ≡ admin_info account
  pub reads : can_read info ≡ true
  pub writes : can_write info ≡ not (text_eq account.role (codes "readonly"))

role_cases :
    (role : Text)
    → ((role_scopes role ≡ scope_global ∷ []) × (text_eq role (codes "readonly") ≡ false))
      ⊎ ((role_scopes role ≡ scope_read ∷ []) × (text_eq role (codes "readonly") ≡ true))
unfolding role_scopes
role_cases role = ground (
  arith,
  text_eq_iff role (codes "superadmin"),
  text_eq_iff role (codes "admin"),
  text_eq_iff role (codes "readonly"),
)

role_scopes-readonly :
    (a : Admin)
    → (can_read (admin_info a) ≡ true)
      × (can_write (admin_info a) ≡ not (text_eq a.role (codes "readonly")))
unfolding can_read can_write
role_scopes-readonly a = elim (role_cases a.role) [
  | inl (scopes, known) ↦ rw (scopes, known) (unfold text_eq in (refl, refl))
  | inr (scopes, known) ↦ rw (scopes, known) (unfold text_eq in (refl, refl))
]

admin_row-Accepts :
    (row : Option Admin) (now : ℕ) (info : TokenInfo)
    → admin_row_info row now ≡ ok info
    → (a : Admin) × (row ≡ some a)
      × (a.enabled ≡ 1)
      × (is_locked now a ≡ false)
      × (info ≡ admin_info a)
unfolding admin_row_info
admin_row-Accepts none now info e = cc
admin_row-Accepts (some a) now info e = (a, refl, ground arith, ground arith, ground arith)

-- An admin token is accepted only for an admin that holds it, is enabled and is not locked; it can
-- always read, and it can write exactly if the role is not `readonly`, so also for a role that the
-- service does not know.
pub validate_admin_token-Accepts :
    (o : Outcome) (now : ℕ) (db : Db) (hash : Text) (info : TokenInfo)
    → validate_admin_token o now db hash ≡ ok info
    → Accepts now db hash info
unfolding validate_admin_token
validate_admin_token-Accepts (some e) now db hash info h = cc
validate_admin_token-Accepts none now db hash info h =
    let (a, row, on, free, is) =
      admin_row-Accepts (select_row (has_api_hash hash) db.admins) now info h in
    record {
      account = a;
      found = row;
      enabled = on;
      unlocked = free;
      info_is = is;
      reads = rw is (role_scopes-readonly a).0;
      writes = rw is (role_scopes-readonly a).1;
    }

admin-HasType :
    (o : Outcome) (now : ℕ) (db : Db) (h : Text) (r : Result TokenInfo)
    → validate_admin_token o now db h ≡ r
    → HasType admin r
admin-HasType o now db h (err e) eq = tt
admin-HasType o now db h (ok info) eq = rw (validate_admin_token-Accepts o now db h info eq).info_is

type_is :
    (k : TokenType) (info : TokenInfo) (r : Result TokenInfo)
    → HasType k r
    → r ≡ ok info
    → prefix_of info.type ≡ prefix_of k
type_is k info (err e) h eq = cc
type_is k info (ok i) h eq = cc

-- The kind of account that a token opens is the one that its prefix names: a token of a user is
-- never accepted as one of an organization or an admin, and so for each of the three.
pub validate-prefix_of :
    (hash_token : Text → Text) (o₁ o₂ : Outcome) (now : ℕ) (db : Db) (token : Text)
    (info : TokenInfo)
    → (validate hash_token o₁ o₂ now db token).1 ≡ ok info
    → has_prefix (prefix_of info.type) token ≡ true
unfolding validate
validate-prefix_of hash_token o₁ o₂ now db token info h = ground (
  arith,
  type_is user info _ (user-HasType o₁ o₂ now db (hash_token token)),
  type_is org info _ (org-HasType o₁ o₂ now db (hash_token token)),
  type_is admin info _ (admin-HasType o₁ now db (hash_token token) _ refl),
)

scopes_have-global :
    (ss : List Text) (scope : Text)
    → scopes_have ss scope_global ≡ true
    → scopes_have ss scope ≡ true
unfolding scopes_have
scopes_have-global [] scope h = h
scopes_have-global (s ∷ ss) scope h = ground (arith, scopes_have-global ss scope)

-- The global scope stands for every scope.
pub has_scope-global :
    (info : TokenInfo) (scope : Text)
    → has_scope info scope_global ≡ true
    → has_scope info scope ≡ true
unfolding has_scope
has_scope-global info scope h = scopes_have-global info.scopes scope h
