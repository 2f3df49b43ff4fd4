-- ===== src/Form/Store.antt =====
-- What a call of `PasteAddFromForm` does to the server.
use caspaste.Prelude.{
  ℕ, ◌≡◌, ◌≢◌, refl, ap, ◌∙◌, Bool, true, false, if◌then◌else◌, Option, none, some, Text, text_eq,
}
use caspaste.Prelude.Table.{Outcome}
use caspaste.RateLimit.{RateLimitSystem, check_and_use_all}
use caspaste.Storage
use caspaste.Storage.{Db, Added, paste_add, paste_get, row_of, gen_token_crypto}
use caspaste.Storage.Rows.{Paste}
use caspaste.Storage.Adding.{paste_add_error, paste_add_done}
use caspaste.Storage.Lookup.{looks_up, paste_get-paste_add}
use caspaste.Form.Request.{
  Request, Settings, Error, Result, ok, err, method_not_allowed, storage, decode,
}
use caspaste.Form.Handler.{World, Server, added, store, checked, after_limits, paste_add_from_form}
use caspaste.Form.Accept.{>>=-eq-ok}
use caspaste.Form.Limits.{IsAcceptable, paste_from-IsAcceptable}

added_error : (a : Added) (e : Error) → added a ≡ err e → (x : Storage.Error) × (a.error ≡ some x)
added_error a e h = split a.error h
  where
    split :
        (o : Option Storage.Error)
        → (elim o [ none ↦ ok a | some x ↦ err (storage x) ]) ≡ err e
        → (x : Storage.Error) × (o ≡ some x)
    split none k = cc
    split (some x) k = (x, refl)

added_done : (a b : Added) → added a ≡ ok b → (a ≡ b) × (a.error ≡ none)
added_done a b h = split a.error h
  where
    split :
        (o : Option Storage.Error)
        → (elim o [ none ↦ ok a | some x ↦ err (storage x) ]) ≡ ok b
        → (a ≡ b) × (o ≡ none)
    split none k = (cc, refl)
    split (some x) k = cc

pub store_error :
    (w : World) (s : Server) (r : Result Paste) (e : Error)
    → (store w s r).1 ≡ err e
    → (store w s r).0 ≡ s
unfolding store
store_error w s (err x) e h = refl
store_error w s (ok p) e h =
    let (x, failed) = added_error (paste_add w.draws w.created w.primary w.backup s.db p).1 e h in
    ap (λ d. record s { db = d })
      (paste_add_error w.draws w.created w.primary w.backup s.db p x failed)

-- The limits that a request leaves: those that have counted it, unless its method is refused.
abbrev pub counted : Settings → World → Server → Request → RateLimitSystem
counted c w s req =
    if req.is_post
    then (check_and_use_all s.limits req.client w.now5 w.now15 w.now60).0
    else s.limits

-- An error of `PasteAddFromForm`, whichever it is, leaves the database as it was; the request has
-- been counted by the limits all the same, unless its method is not POST.
pub paste_add_from_form_error :
    (c : Settings) (w : World) (s : Server) (req : Request) (e : Error)
    → (paste_add_from_form c w s req).1 ≡ err e
    → (paste_add_from_form c w s req).0 ≡ record s { limits = counted c w s req }
unfolding paste_add_from_form
paste_add_from_form_error c w s req e h =
    on_method req.is_post (check_and_use_all s.limits req.client w.now5 w.now15 w.now60).1 h
  where
    s' : Server
    s' = record s { limits = (check_and_use_all s.limits req.client w.now5 w.now15 w.now60).0 }

    on_wait :
        (wait : Option ℕ)
        → (after_limits c w s' req wait).1 ≡ err e
        → (after_limits c w s' req wait).0 ≡ s'
    on_wait (some seconds) k = refl
    on_wait none k = store_error w s' (checked c w.now req) e k

    on_method :
        (b : Bool) (wait : Option ℕ)
        → (if b then after_limits c w s' req wait else (s, err method_not_allowed)).1 ≡ err e
        → (if b then after_limits c w s' req wait else (s, err method_not_allowed)).0
          ≡ record s { limits = if b then s'.limits else s.limits }
    on_method true wait k = on_wait wait k
    on_method false wait k = refl

-- What a success means: the request was let through by the limits, a paste has passed the checks and
-- is within the limits on pastes, and from then on `PasteGet` finds it under the id that was
-- returned until it expires, and answers for every other id as before.
pub record IsStored (c : Settings) (w : World) (s s' : Server) (req : Request) (a : Added)
    : Type 0 where
  pub posted : req.is_post ≡ true
  pub admitted : (check_and_use_all s.limits req.client w.now5 w.now15 w.now60).1 ≡ none
  pub paste : Paste
  pub accepted : checked c w.now req ≡ ok paste
  pub acceptable : IsAcceptable c w.now paste
  pub lookups :
      (later : ℕ) (j : Text)
      → (paste_get later none none s'.db j).1 ≡ (
          if text_eq a.id j
          then looks_up later (some (row_of a.id w.created paste))
          else (paste_get later none none s.db j).1)

checked-IsAcceptable :
    (c : Settings) (now : ℕ) (req : Request) (p : Paste)
    → checked c now req ≡ ok p
    → IsAcceptable c now p
checked-IsAcceptable c now req p h =
    let ((v, file), decoded, k) = >>=-eq-ok (decode req.payload) _ h in
    paste_from-IsAcceptable c now v file p k

pub stored_lookups :
    (w : World) (s : Server) (p : Paste) (a : Added)
    → (store w s (ok p)).1 ≡ ok a
    → (later : ℕ) (j : Text)
    → (paste_get later none none (store w s (ok p)).0.db j).1 ≡ (
        if text_eq a.id j
        then looks_up later (some (row_of a.id w.created p))
        else (paste_get later none none s.db j).1)
unfolding store
stored_lookups w s p a h later j =
    let (same, clean) = added_done (paste_add w.draws w.created w.primary w.backup s.db p).1 a h in
    let (drawn, ran) = paste_add_done w.draws w.created w.primary w.backup s.db p clean in
    let id_is : (paste_add w.draws w.created w.primary w.backup s.db p).1.id ≡ a.id =
      ap (λ (x : Added). x.id) same in
    with_primary w.primary ran (drawn ∙ ap Storage.ok id_is) clean
  where
    with_primary :
        (o : Outcome)
        → o ≡ none
        → gen_token_crypto 8 w.draws ≡ Storage.ok a.id
        → (paste_add w.draws w.created o w.backup s.db p).1.error ≡ none
        → (paste_get later none none (paste_add w.draws w.created o w.backup s.db p).0 j).1 ≡ (
            if text_eq a.id j
            then looks_up later (some (row_of a.id w.created p))
            else (paste_get later none none s.db j).1)
    with_primary none ran drawn clean =
        paste_get-paste_add w.draws w.created later w.backup s.db p a.id j drawn clean
    with_primary (some e) ran drawn clean = cc

pub no_store : (w : World) (s : Server) (e : Error) (a : Added) → (store w s (err e)).1 ≢ ok a
unfolding store
no_store w s e a h = cc

-- A request that is answered with an id was a POST that the limits let through; its paste has
-- passed the checks, is within the limits on pastes, and is what a `PasteGet` whose statements run
-- finds under that id until it expires, while every other lookup answers as before.
pub paste_add_from_form-IsStored :
    (c : Settings) (w : World) (s : Server) (req : Request) (a : Added)
    → (paste_add_from_form c w s req).1 ≡ ok a
    → IsStored c w s (paste_add_from_form c w s req).0 req a
unfolding paste_add_from_form
paste_add_from_form-IsStored c w s req a h =
    on_method req.is_post refl (check_and_use_all s.limits req.client w.now5 w.now15 w.now60).1 refl
      h
  where
    s' : Server
    s' = record s { limits = (check_and_use_all s.limits req.client w.now5 w.now15 w.now60).0 }

    through :
        req.is_post ≡ true
        → (check_and_use_all s.limits req.client w.now5 w.now15 w.now60).1 ≡ none
        → (r : Result Paste) → checked c w.now req ≡ r
        → (store w s' r).1 ≡ ok a
        → IsStored c w s (store w s' r).0 req a
    through post admitted (err e) same k = absurd (no_store w s' e a k)
    through post admitted (ok p) same k = record {
      posted = post;
      admitted = admitted;
      paste = p;
      accepted = same;
      acceptable = checked-IsAcceptable c w.now req p same;
      lookups = stored_lookups w s' p a k;
    }

    on_method :
        (b : Bool)
        → req.is_post ≡ b
        → (wait : Option ℕ)
        → (check_and_use_all s.limits req.client w.now5 w.now15 w.now60).1 ≡ wait
        → (if b then after_limits c w s' req wait else (s, err method_not_allowed)).1 ≡ ok a
        → IsStored c w s
            (if b then after_limits c w s' req wait else (s, err method_not_allowed)).0
            req
            a
    on_method true post none admitted k = through post admitted (checked c w.now req) refl k
    on_method true post (some n) admitted k = cc
    on_method false post wait admitted k = cc
