-- ===== src/Token/Listing.antt =====
-- `ListUserTokens` and `ListOrgTokens`.
use caspaste.Prelude.{
  ℕ, suc, ◌≤◌, ◌==◌, ◌≡◌, refl, ap, ◌∙◌, sym, Bool, true, leb, Bool-cases, inl, inr, none, some,
  List, [], ◌∷◌, map, length, All, arith,
}
use caspaste.Prelude.Table.{Outcome, affected, select}
use caspaste.Prelude.Table.Newest.{
  insert_newest, newest_first, Descending, newest_first-Descending, newest_first-All, select-All,
}
use caspaste.Token.Model.{Token, Db, Result, ok, err, driver}
use caspaste.Token.Validate.{count_user_tokens}

abbrev pub created : Token → ℕ
created t = t.created_at

-- What the listings scan; the other fields keep their zero values.
abbrev pub listed_user : Token → Token
listed_user t = record t { org_id = 0; created_by = 0; token_hash = [] }

abbrev pub listed_org : Token → Token
listed_org t = record t { owner_id = 0; token_hash = [] }

unfoldable pub list_user_tokens : Outcome → Db → ℕ → Result (List Token)
list_user_tokens (some e) db user_id = err (driver e)
list_user_tokens none db user_id = ok (
    map listed_user
      (newest_first created (select (λ t. t.owner_id == user_id) db.user_tokens.rows)))

unfoldable pub list_org_tokens : Outcome → Db → ℕ → Result (List Token)
list_org_tokens (some e) db org_id = err (driver e)
list_org_tokens none db org_id =
    ok (map listed_org (newest_first created (select (λ t. t.org_id == org_id) db.org_tokens.rows)))

length-insert_newest :
    (t : Token) (ts : List Token) → length (insert_newest created t ts) ≡ suc (length ts)
unfolding insert_newest
length-insert_newest t [] = refl
length-insert_newest t (q ∷ qs) = elim (Bool-cases (leb q.created_at t.created_at)) [
  | inl h ↦ rw h refl
  | inr h ↦ rw h (ap suc (length-insert_newest t qs))
]

length-newest_first : (ts : List Token) → length (newest_first created ts) ≡ length ts
unfolding newest_first
length-newest_first [] = refl
length-newest_first (t ∷ ts) =
    length-insert_newest t (newest_first created ts) ∙ ap suc (length-newest_first ts)

length-select : (test : Token → Bool) (ts : List Token) → length (select test ts) ≡ affected test ts
unfolding select affected
length-select test [] = refl
length-select test (t ∷ ts) = ground (arith, length-select test ts)

length-map : (f : Token → Token) (ts : List Token) → length (map f ts) ≡ length ts
length-map f [] = refl
length-map f (t ∷ ts) = ap suc (length-map f ts)

All-map :
    (P Q : Token → Type 0) (f : Token → Token)
    → ((t : Token) → P t → Q (f t))
    → (ts : List Token) → All P ts
    → All Q (map f ts)
All-map P Q f h [] hs = tt
All-map P Q f h (t ∷ ts) hs = (h t hs.0, All-map P Q f h ts hs.1)

module _ (f : Token → Token) (same : (t : Token) → (f t).created_at ≡ t.created_at) where
  map-Descending : (ts : List Token) → Descending created ts → Descending created (map f ts)
  map-Descending [] d = tt
  map-Descending (t ∷ ts) d = (
    All-map (λ q. q.created_at ≤ t.created_at) (λ q. q.created_at ≤ (f t).created_at) f
        (λ q le. omega (arith, same q, same t)) ts d.0,
    map-Descending ts d.1,
  )

-- `ListUserTokens` gives as many tokens as `CountUserTokens` counts, all of them of this user, newest
-- first and without their hashes.
pub list_user_tokens-count :
    (o : Outcome) (db : Db) (user_id : ℕ) (ts : List Token)
    → list_user_tokens o db user_id ≡ ok ts
    → (length ts ≡ count_user_tokens db user_id)
      × All (λ t. (t.owner_id ≡ user_id) × (t.token_hash ≡ [])) ts
      × Descending created ts
unfolding list_user_tokens count_user_tokens
list_user_tokens-count (some e) db user_id ts h = cc
list_user_tokens-count none db user_id ts h =
    let test = λ (t : Token). t.owner_id == user_id in
    let rows = newest_first created (select test db.user_tokens.rows) in
    let same : map listed_user rows ≡ ts = cc in
    rw (sym same) (
      length-map listed_user rows ∙ length-newest_first _ ∙ length-select test db.user_tokens.rows,
      All-map (λ t. test t ≡ true) (λ t. (t.owner_id ≡ user_id) × (t.token_hash ≡ [])) listed_user
          (λ t e. (ground arith, refl)) rows
          (newest_first-All created _ _ (select-All test db.user_tokens.rows)),
      map-Descending listed_user (λ t. refl) rows (newest_first-Descending created _),
    )
