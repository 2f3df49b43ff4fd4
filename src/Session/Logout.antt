-- ===== src/Session/Logout.antt =====
-- Sessions that are closed: one, all but one, and the expired ones.
use caspaste.Prelude.{
  ◌↔◌, ℕ, ◌≤◌, ◌≡◌, ◌≢◌, ◌⊎◌, inl, inr, Bool-cases, refl, sym, ap, ◌∙◌, false, if◌then◌else◌,
  Option, none, some, [], Text, text_eq, text_eq_iff, arith,
}
use caspaste.Prelude.Table.{Outcome, affected, select_row}
use caspaste.Prelude.Table.Laws.{
  select_row-delete_unique, select_row-delete_first, select_row-delete_kept,
}
use caspaste.Session.Accept.{row_answer, validate-row_answer}
use caspaste.Session.{
  Session, Service, Error, Result, ok, err, session_not_found, session_expired, has_hash,
  is_expired, validate, delete_all_except, is_other, cleanup_expired,
}

pub row_answer-eq_ok :
    (now : ℕ) (row : Option Session) (r : Session)
    → row_answer now row ≡ ok r
    → (row ≡ some r) × (is_expired now r ≡ false)
row_answer-eq_ok now none r e = cc
row_answer-eq_ok now (some q) r e = ground arith

module _ (hash_token : Text → Text) where
  -- The session is another user's, or the one of the current token.
  abbrev pub Stays : ℕ → Text → Session → Type 0
  Stays user_id current r = (r.user_id ≢ user_id) ⊎ (r.token_hash ≡ hash_token current)

  is_other_iff :
      (user_id : ℕ) (current : Text) (r : Session)
      → (is_other hash_token user_id current r ≡ false → Stays user_id current r)
        × (Stays user_id current r → is_other hash_token user_id current r ≡ false)
  is_other_iff user_id current r = (left, right)
    where
      left : is_other hash_token user_id current r ≡ false → Stays user_id current r
      left h = elim (Bool-cases (text_eq r.token_hash (hash_token current))) [
        | inl same ↦ inr ((text_eq_iff r.token_hash (hash_token current)).0 same)
        | inr other ↦ inl (λ e. ground arith)
      ]

      right : Stays user_id current r → is_other hash_token user_id current r ≡ false
      right h = ground (arith, text_eq_iff r.token_hash (hash_token current))

  -- After a `DeleteAllExcept` that runs, every token that is not empty and is still accepted is
  -- another user's, or has the hash of the current token.
  delete_all_except-Stays :
      (now : ℕ) (o₂ : Outcome) (s : Service) (user_id : ℕ) (current token : Text) (r : Session)
      → token ≢ []
      → (validate hash_token none o₂ now
          (delete_all_except hash_token none s user_id current).0
          token).1
        ≡ ok r
      → Stays user_id current r
  unfolding delete_all_except
  delete_all_except-Stays now o₂ s user_id current token r ne h =
      let (row, fresh) =
        row_answer-eq_ok now _ r (sym (validate-row_answer hash_token o₂ now _ token ne) ∙ h) in
      (is_other_iff user_id current r).0 (
        select_row-delete_kept (has_hash (hash_token token)) (is_other hash_token user_id current)
          s.rows r row)

  -- A `DeleteAllExcept` that runs leaves a token that is not empty and was accepted, of another user or
  -- with the hash of the current token, accepted with the same answer.
  delete_all_except_spared :
      (now : ℕ) (o₂ : Outcome) (s : Service) (user_id : ℕ) (current token : Text) (r : Session)
      → token ≢ []
      → (validate hash_token none o₂ now s token).1 ≡ ok r
      → Stays user_id current r
      → (validate hash_token none o₂ now
          (delete_all_except hash_token none s user_id current).0
          token).1
        ≡ ok r
  unfolding delete_all_except
  delete_all_except_spared now o₂ s user_id current token r ne h stays =
      let (row, fresh) =
        row_answer-eq_ok now _ r (sym (validate-row_answer hash_token o₂ now s token ne) ∙ h) in
      validate-row_answer hash_token o₂ now _ token ne
      ∙ ap (row_answer now) (
          select_row-delete_first (has_hash (hash_token token))
            (is_other hash_token user_id current) s.rows r row
            ((is_other_iff user_id current r).1 stays))
      ∙ rw fresh refl

  -- A token that is not empty and is accepted before a `DeleteAllExcept` that runs is accepted after
  -- it, with the same answer, exactly if it is another user's or has the hash of the current token.
  pub validate-delete_all_except :
      (now : ℕ) (o₂ : Outcome) (s : Service) (user_id : ℕ) (current token : Text) (r : Session)
      → token ≢ []
      → (validate hash_token none o₂ now s token).1 ≡ ok r
      → ((validate hash_token none o₂ now
            (delete_all_except hash_token none s user_id current).0
            token).1
          ≡ ok r)
        ↔ Stays user_id current r
  validate-delete_all_except now o₂ s user_id current token r ne h = (
    delete_all_except-Stays now o₂ s user_id current token r ne,
    delete_all_except_spared now o₂ s user_id current token r ne h,
  )

abbrev pub forget_error : Error → Error
forget_error session_expired = session_not_found
forget_error e = e

abbrev pub forget_expired : Result Session → Result Session
forget_expired (ok r) = ok r
forget_expired (err e) = err (forget_error e)

row_answer-forget :
    (now : ℕ) (row : Option Session)
    → row_answer now
        (elim row [ none ↦ none | some r ↦ (if is_expired now r then none else some r) ])
      ≡ forget_expired (row_answer now row)
row_answer-forget now none = refl
row_answer-forget now (some r) = ground arith

-- After `CleanupExpired` every token is answered as before it, at the time for which it ran, except
-- that the expired sessions are unknown. The hashes of the rows are distinct.
pub validate-cleanup_expired_session :
    (hash_token : Text → Text) (now : ℕ) (o₂ : Outcome) (s : Service) (token : Text)
    → token ≢ []
    → ((h : Text) → affected (has_hash h) s.rows ≤ 1)
    → (validate hash_token none o₂ now (cleanup_expired none now s).0 token).1
      ≡ forget_expired (validate hash_token none o₂ now s token).1
unfolding cleanup_expired
validate-cleanup_expired_session hash_token now o₂ s token ne u =
    validate-row_answer hash_token o₂ now _ token ne
    ∙ ap (row_answer now) (
        select_row-delete_unique (has_hash (hash_token token)) (is_expired now) s.rows
          (u (hash_token token)))
    ∙ row_answer-forget now (select_row (has_hash (hash_token token)) s.rows)
    ∙ ap forget_expired (sym (validate-row_answer hash_token o₂ now s token ne))
