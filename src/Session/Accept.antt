-- ===== src/Session/Accept.antt =====
-- Sessions that were created or extended are accepted until they expire.
use caspaste.Prelude.{
  ℕ, ◌+◌, ◌≤◌, ◌≡◌, ◌≢◌, refl, ap, ◌∙◌, if◌then◌else◌, ltb, Option, none, some, [], ◌∷◌, Text,
  text_eq_refl, arith,
}
use caspaste.Prelude.Table.{Outcome, select_row, delete}
use caspaste.Prelude.Table.Laws.{
  select_row-append_hit, select_row-delete-none, select_row-eq_some, select_row-update,
}
use caspaste.Session.{
  Session, Service, Result, ok, err, session_not_found, session_expired, unix, has_hash, is_expired,
  new_row, insert_session, create, validate, extend,
}

-- The answer for a row that a hash finds.
abbrev pub row_answer : ℕ → Option Session → Result Session
row_answer now none = err session_not_found
row_answer now (some r) = if is_expired now r then err session_expired else ok r

insert-found :
    (r : Session) (s : Service)
    → (insert_session none r s).1 ≡ none
    → select_row (has_hash r.token_hash) (insert_session none r s).0.rows
      ≡ some (record r { id = s.last_id + 1 })
unfolding insert_session
insert-found r s h = ground (
  arith,
  select_row-append_hit (has_hash r.token_hash) s.rows (record r { id = s.last_id + 1 }),
  text_eq_refl r.token_hash,
)

module _ (hash_token : Text → Text) where
  pub validate-row_answer :
      (o₂ : Outcome) (now : ℕ) (s : Service) (token : Text)
      → token ≢ []
      → (validate hash_token none o₂ now s token).1
        ≡ row_answer now (select_row (has_hash (hash_token token)) s.rows)
  unfolding validate
  validate-row_answer o₂ now s [] ne = absurd (ne refl)
  validate-row_answer o₂ now s (c ∷ token) ne = ground arith

  created :
      (now now' : ℕ) (s : Service) (user_id : ℕ) (device ip_address user_agent token : Text)
      → (create hash_token (some token) none now now' s user_id device ip_address user_agent).1
        ≡ ok token
      → (insert_session none
          (new_row hash_token s token now now' user_id device ip_address user_agent)
          s).1
        ≡ none
  unfolding create
  created now now' s user_id device ip_address user_agent token h = ground arith

  -- A session that `Create` has opened, under a token that is not empty, is answered by `Validate`
  -- with the row that was asked for, to the second in which it expires, and as expired after that;
  -- the query runs.
  pub validate-create :
      (now now' later : ℕ) (o₂ : Outcome) (s : Service) (user_id : ℕ)
      (device ip_address user_agent token : Text)
      → token ≢ []
      → (create hash_token (some token) none now now' s user_id device ip_address user_agent).1
        ≡ ok token
      → (validate hash_token none o₂ later
          (create hash_token (some token) none now now' s user_id device ip_address user_agent).0
          token).1
        ≡ (if ltb (unix (now' + s.duration)) (unix later)
            then err session_expired
            else ok
                (record (new_row hash_token s token now now' user_id device ip_address user_agent) {
                  id = s.last_id + 1;
                }))
  unfolding create
  validate-create now now' later o₂ s user_id device ip_address user_agent token ne h =
      validate-row_answer o₂ later _ token ne
      ∙ ap (row_answer later) (
          insert-found (new_row hash_token s token now now' user_id device ip_address user_agent) s
            (created now now' s user_id device ip_address user_agent token h))

  extended :
      (now : ℕ) (s : Service) (token : Text) (r : Session)
      → select_row (has_hash (hash_token token)) s.rows ≡ some r
      → select_row (has_hash (hash_token token)) (extend hash_token none now s token).0.rows
        ≡ some (record r { expires_at = unix (now + s.duration) })
  unfolding extend
  extended now s token r found =
      select_row-update (has_hash (hash_token token)) (has_hash (hash_token token))
        (λ q. record q { expires_at = unix (now + s.duration) }) s.rows (λ q. refl)
      ∙ rw found (rw (select_row-eq_some (has_hash (hash_token token)) s.rows found) refl)

  -- `Extend` gives the session that a token finds the full duration from now, also where it had
  -- expired and was not cleaned up yet: the token, which is not empty, is then accepted up to the
  -- new time; the statements run.
  pub validate-extend :
      (now later : ℕ) (o₂ : Outcome) (s : Service) (token : Text) (r : Session)
      → token ≢ []
      → select_row (has_hash (hash_token token)) s.rows ≡ some r
      → unix later ≤ unix (now + s.duration)
      → (validate hash_token none o₂ later (extend hash_token none now s token).0 token).1
        ≡ ok (record r { expires_at = unix (now + s.duration) })
  unfolding extend
  validate-extend now later o₂ s token r ne found le =
      validate-row_answer o₂ later (extend hash_token none now s token).0 token ne
      ∙ ap (row_answer later) (extended now s token r found)
      ∙ ground arith

  not_empty :
      (now : ℕ) (s : Service) → (validate hash_token none none now s []).1 ≡ err session_expired → ⊥
  unfolding validate
  not_empty now s h = cc

  dropped :
      (now : ℕ) (s : Service) (c : ℕ) (token : Text)
      → (validate hash_token none none now s (c ∷ token)).1 ≡ err session_expired
      → (validate hash_token none none now s (c ∷ token)).0.rows
        ≡ delete (has_hash (hash_token (c ∷ token))) s.rows
  unfolding validate
  dropped now s c token h = ground arith

  gone :
      (now : ℕ) (s : Service) (c : ℕ) (token : Text)
      → (validate hash_token none none now s (c ∷ token)).1 ≡ err session_expired
      → select_row
          (has_hash (hash_token (c ∷ token)))
          (validate hash_token none none now s (c ∷ token)).0.rows
        ≡ none
  gone now s c token h = rw (dropped now s c token h) (
      select_row-delete-none (has_hash (hash_token (c ∷ token))) (has_hash (hash_token (c ∷ token)))
        s.rows (λ r t. t))

  -- A refused session does not stay: where `Validate` says that a session has expired and its
  -- deletion runs, the same token is unknown from then on.
  pub validate_expired :
      (now later : ℕ) (o₂ : Outcome) (s : Service) (token : Text)
      → (validate hash_token none none now s token).1 ≡ err session_expired
      → (validate hash_token none o₂ later (validate hash_token none none now s token).0 token).1
        ≡ err session_not_found
  validate_expired now later o₂ s [] h = absurd (not_empty now s h)
  validate_expired now later o₂ s (c ∷ token) h =
      validate-row_answer o₂ later (validate hash_token none none now s (c ∷ token)).0 (c ∷ token)
        (λ e. cc)
      ∙ ap (row_answer later) (gone now s c token h)
