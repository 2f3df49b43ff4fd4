-- ===== src/Reading/Edits.antt =====
-- src/web/edit.go and src/web/url.go.
use caspaste.Prelude.{
  ℕ, ◌≡◌, refl, ap, ◌∙◌, ◌&&◌, not, Bool, true, false, Bool-cases, inl, inr, if◌then◌else◌, Option,
  none, some, List, [], ◌∷◌, Text, text_eq, text_eq_iff, text_eq_refl, arith,
}
use caspaste.Prelude.Table.{Outcome, select_row, update}
use caspaste.Prelude.Table.Laws.{select_row-update, select_row-eq_some, affected-zero_iff}
use caspaste.RateLimit.{check_and_use_all}
use caspaste.Storage
use caspaste.Storage.{Db, paste_get, paste_update, set_columns}
use caspaste.Storage.Rows.{Paste, has_id, is_expired}
use caspaste.Reading.Alone.{Works, get_live}
use caspaste.Reading.{
  Error, method_not_allowed, not_found, unauthorized, too_many_requests, storage, World, Server,
}

pub data Answer : Type 0 where
  redirect_to : Text → Answer
  fail : Error → Answer

abbrev replaced_by : Text → Text → Text
replaced_by old [] = old
replaced_by old (c ∷ t) = c ∷ t

-- An empty value leaves the column as it is.
unfoldable pub edited : Text → Text → Paste → Paste
edited title body p = record p { title = replaced_by p.title title; body = replaced_by p.body body }

abbrev updated : Text → Storage.Result (Unit {0}) → Answer
updated id (Storage.Result.ok done) = redirect_to (b'/' ∷ id)
updated id (Storage.Result.err e) = fail (storage e)

-- `if !paste.IsEditable`, and the update.
abbrev update_if : Bool → World → Db → Text → Paste → Db × Answer
update_if false w db id q = (db, fail unauthorized)
update_if true w db id q = let (db', r) = paste_update w.write₁ w.write₂ db q in (db', updated id r)

edit_found : World → Db → Text → Text → Text → Storage.Result Paste → Db × Answer
edit_found w db id title body (Storage.Result.err e) = (db, fail (storage e))
edit_found w db id title body (Storage.Result.ok p) =
    update_if p.is_editable w db id (edited title body p)

unfoldable pub edit_paste : World → Db → Text → Text → Text → Db × Answer
unfolding edit_found
edit_paste w db id title body =
    let (db', answer) = paste_get w.now w.get₁ w.get₂ db id in edit_found w db' id title body answer

abbrev followed : Storage.Result Paste → Answer
followed (Storage.Result.err e) = fail (storage e)
followed (Storage.Result.ok p) = if not p.is_url then fail not_found else target p.original_url
  where
    target : Text → Answer
    target [] = fail not_found
    target (c ∷ t) = redirect_to (c ∷ t)

abbrev limited : Option ℕ → Db × Answer → Db → Db × Answer
limited none served db = served
limited (some seconds) served db = (db, fail (too_many_requests seconds))

-- `limits` are those for new pastes.
unfoldable pub handle_edit_paste :
    Bool → World → Server → Text → Text → Text → Text → Server × Answer
unfolding edit_paste
handle_edit_paste is_post w s client id title body =
    if is_post
    then (let (limits, wait) = check_and_use_all s.limits client w.now5 w.now15 w.now60 in
        let (db, answer) = limited wait (edit_paste w s.db id title body) s.db in
        (record { limits = limits; db = db }, answer))
    else (s, fail method_not_allowed)

unfoldable pub handle_url_redirect : Bool → World → Server → Text → Text → Server × Answer
handle_url_redirect is_get w s client id =
    if is_get
    then (let (limits, wait) = check_and_use_all s.limits client w.now5 w.now15 w.now60 in
        let (db', found) = paste_get w.now w.get₁ w.get₂ s.db id in
        let (db, answer) = limited wait (db', followed found) s.db in
        (record { limits = limits; db = db }, answer))
    else (s, fail method_not_allowed)

update_works :
    (o₂ : Outcome) (db : Db) (p q : Paste)
    → select_row (has_id q.id) db.pool ≡ some p
    → ((paste_update none o₂ db q).1 ≡ Storage.Result.ok tt)
      × ((paste_update none o₂ db q).0.pool ≡ update (set_columns q) (has_id q.id) db.pool)
unfolding paste_update
update_works o₂ db p q s = ground (arith, s, affected-zero_iff (has_id q.id) db.pool)

-- The row of the id gets the columns, and no other row changes.
row-update :
    (id j : Text) (rows : List Paste) (p q : Paste)
    → select_row (has_id id) rows ≡ some p
    → set_columns q p ≡ q
    → select_row (has_id j) (update (set_columns q) (has_id id) rows)
      ≡ (if text_eq id j then some q else select_row (has_id j) rows)
row-update id j rows p q s e =
    select_row-update (has_id j) (has_id id) (set_columns q) rows (λ r. refl)
    ∙ elim (Bool-cases (text_eq id j)) [
      | inl t ↦ rw t (
          rw (← (text_eq_iff id j).0 t)
            (rw s (rw (select_row-eq_some (has_id id) rows s) (ap some e))))
      | inr f ↦ rw f (other f (select_row (has_id j) rows) refl)
    ]
  where
    other :
        text_eq id j ≡ false
        → (found : Option Paste) → select_row (has_id j) rows ≡ found
        → (elim found [ none ↦ none | some r ↦ some (if has_id id r then set_columns q r else r) ])
          ≡ found
    other f none h = refl
    other f (some r) h =
        let of_j = (text_eq_iff r.id j).0 (select_row-eq_some (has_id j) rows h) in
        rw of_j (ground (arith, f, text_eq_iff j id, text_eq_refl j))

update_if-row :
    (b : Bool) (w : World) (db : Db) (id j : Text) (p q : Paste)
    → Works w
    → select_row (has_id id) db.pool ≡ some p
    → set_columns q p ≡ q
    → q.id ≡ id
    → let (db', answer) = update_if b w db id q in
      (select_row (has_id j) db'.pool
        ≡ (if b && text_eq id j then some q else select_row (has_id j) db.pool))
      × (answer ≡ (if b then redirect_to (b'/' ∷ id) else fail unauthorized))
update_if-row false w db id j p q works s e i = (refl, refl)
update_if-row true w db id j p q works s e i =
    let at_q : select_row (has_id q.id) db.pool ≡ some p =
      ap (λ k. select_row (has_id k) db.pool) i ∙ s in
    let done = update_works w.write₂ db p q at_q in
    let rows = row-update id j db.pool p q s e in
    rw works.write₁ (
      ap (select_row (has_id j)) done.1
          ∙ ap (λ k. select_row (has_id j) (update (set_columns q) (has_id k) db.pool)) i
          ∙ rows,
      ap (updated id) done.0,
    )

replaced_by-if : (old t : Text) → replaced_by old t ≡ (if text_eq t [] then old else t)
unfolding text_eq
replaced_by-if old [] = refl
replaced_by-if old (c ∷ t) = refl

-- An edit of a paste that has not expired sets its title and its body, where they are not empty, and
-- leads to the paste, if it may be edited; if not, nothing changes. Its other columns and the other
-- pastes stay as they were. The statements run.
pub edit_paste_lem :
    (w : World) (db : Db) (id j title body : Text) (p : Paste)
    → Works w
    → select_row (has_id id) db.pool ≡ some p
    → is_expired w.now p ≡ false
    → let (db', answer) = edit_paste w db id title body in
      (select_row (has_id j) db'.pool ≡ (
        if p.is_editable && text_eq id j
        then some (record p {
          title = if text_eq title [] then p.title else title;
          body = if text_eq body [] then p.body else body;
        })
        else select_row (has_id j) db.pool))
      × (answer ≡ (if p.is_editable then redirect_to (b'/' ∷ id) else fail unauthorized))
unfolding edit_paste edit_found edited
edit_paste_lem w db id j title body p works s x =
    let at_id : p.id ≡ id = (text_eq_iff p.id id).0 (select_row-eq_some (has_id id) db.pool s) in
    let got : paste_get w.now w.get₁ w.get₂ db id ≡ (db, Storage.Result.ok p) =
      rw works.get₁ (rw works.get₂ (get_live w.now db id p s x)) in
    rw (← replaced_by-if p.title title) (
      rw (← replaced_by-if p.body body)
        (rw got (update_if-row p.is_editable w db id j p (edited title body p) works s refl at_id)))
