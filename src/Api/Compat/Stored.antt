-- ===== src/Api/Compat/Stored.antt =====
-- What a request to the interfaces of other services does to the server.
use caspaste.Prelude.{
  ℕ, ◌≡◌, refl, ap, Bool, true, false, if◌then◌else◌, Option, none, some, List, Text, text_eq,
}
use caspaste.Prelude.Int.{ℤ}
use caspaste.RateLimit.{check_and_use_all}
use caspaste.Storage.{Added, paste_get, row_of}
use caspaste.Storage.Rows.{Paste}
use caspaste.Storage.Lookup.{looks_up}
use caspaste.Form
use caspaste.Form.Request.{Result, ok, err}
use caspaste.Form.Handler.{World, Server}
use caspaste.Form.Store.{stored_lookups, no_store, store_error}
use caspaste.Reading
use caspaste.Api.{Error, Api}
use caspaste.Api.Compat.{Service, CompatRequest, route}
use caspaste.Api.Compat.Pastes.{paste_of}
use caspaste.Api.Compat.Handler.{
  Reply, created, refused, reply_of, creates, reads, hastebin_get, admit, create, serve, dispatch,
  handle_compat,
}
use caspaste.Api.Compat.Kept.{IsKept, paste_of-IsKept}

created_inj : (r : Result Added) (a : Added) → reply_of r ≡ created a → r ≡ ok a
created_inj (ok b) a h = ap ok cc
created_inj (err e) a h = cc

refused_inj :
    (r : Result Added) (e : Error) → reply_of r ≡ refused e → (x : Form.Request.Error) × (r ≡ err x)
refused_inj (ok b) e h = cc
refused_inj (err x) e h = (x, refl)

-- A creation that is answered with an id.
record IsCreated (w : World) (s s' : Server) (client : Text) (p : Result Paste) (a : Added)
    : Type 0 where
  admitted : (check_and_use_all s.limits client w.now5 w.now15 w.now60).1 ≡ none
  paste : Paste
  made : p ≡ ok paste
  lookups :
      (later : ℕ) (j : Text)
      → (paste_get later none none s'.db j).1 ≡ (
          if text_eq a.id j
          then looks_up later (some (row_of a.id w.created paste))
          else (paste_get later none none s.db j).1)

create-IsCreated :
    (w : World) (s : Server) (client : Text) (p : Result Paste) (a : Added)
    → (create w s client p).1 ≡ ok a
    → IsCreated w s (create w s client p).0 client p a
unfolding create admit
create-IsCreated w s client p a h =
    through (check_and_use_all s.limits client w.now5 w.now15 w.now60).1 p refl refl h
  where
    s' : Server
    s' = record s { limits = (check_and_use_all s.limits client w.now5 w.now15 w.now60).0 }

    through :
        (wait : Option ℕ) (r : Result Paste)
        → (check_and_use_all s.limits client w.now5 w.now15 w.now60).1 ≡ wait
        → p ≡ r
        → (admit w s' r wait).1 ≡ ok a
        → IsCreated w s (admit w s' r wait).0 client p a
    through (some n) r e f k = cc
    through none (err x) e f k = absurd (no_store w s' x a k)
    through none (ok q) e f k = record {
      admitted = e;
      paste = q;
      made = f;
      lookups = stored_lookups w s' q a k;
    }

create_error :
    (w : World) (s : Server) (client : Text) (p : Result Paste) (x : Form.Request.Error)
    → (create w s client p).1 ≡ err x
    → (create w s client p).0.db ≡ s.db
unfolding create admit
create_error w s client p x h =
    through (check_and_use_all s.limits client w.now5 w.now15 w.now60).1 h
  where
    s' : Server
    s' = record s { limits = (check_and_use_all s.limits client w.now5 w.now15 w.now60).0 }

    through : (wait : Option ℕ) → (admit w s' p wait).1 ≡ err x → (admit w s' p wait).0.db ≡ s.db
    through (some n) k = refl
    through none k = ap (λ (t : Server). t.db) (store_error w s' p x k)

module _ (parse_duration : Text → Option ℤ) (seconds : ℕ → ℕ) (lexers : List Text) where
  -- What it means that a request is answered with an id.
  pub record IsTaken (w : World) (s s' : Api) (q : CompatRequest) (a : Added) : Type 0 where
    pub service : Service
    pub found : route q.path ≡ some service
    pub posted : creates service q.method ≡ true
    pub admitted : (check_and_use_all s.forms.limits q.client w.now5 w.now15 w.now60).1 ≡ none
    pub paste : Paste
    pub made : paste_of parse_duration seconds lexers w.now service q ≡ ok paste
    pub kept : IsKept lexers w.now paste
    pub lookups :
        (later : ℕ) (j : Text)
        → (paste_get later none none s'.forms.db j).1 ≡ (
            if text_eq a.id j
            then looks_up later (some (row_of a.id w.created paste))
            else (paste_get later none none s.forms.db j).1)

  served : World → Reading.World → Api → CompatRequest → Service → Bool → Bool → Api × Reply
  served w r s q service creating reading =
      if creating
      then (let p = paste_of parse_duration seconds lexers w.now service q in
          let (forms, answer) = create w s.forms q.client p in
          (record s { forms = forms }, reply_of answer))
      else if reading
      then hastebin_get r s q
      else (s, refused Error.method_not_allowed)

  -- A request to an interface of another service that is answered with an id was made by a method
  -- that creates, and was let through by the limits on new pastes; its paste has a syntax that is
  -- known, is a file or what `UnknownToUnix` makes of a text that is not empty, and neither can be
  -- edited nor is an address; and a `PasteGet` whose statements run finds it under the id until it
  -- expires, and answers for every other id as before.
  pub handle_compat-IsTaken :
      (w : World) (r : Reading.World) (s : Api) (q : CompatRequest) (a : Added)
      → (handle_compat parse_duration seconds lexers w r s q).1 ≡ created a
      → IsTaken w s (handle_compat parse_duration seconds lexers w r s q).0 q a
  unfolding handle_compat serve hastebin_get served
  handle_compat-IsTaken w r s q a h = routed (route q.path) refl h
    where
      by_method :
          (service : Service) (b c : Bool)
          → route q.path ≡ some service
          → creates service q.method ≡ b
          → (served w r s q service b c).1 ≡ created a
          → IsTaken w s (served w r s q service b c).0 q a
      by_method service true c e m k =
          let p = paste_of parse_duration seconds lexers w.now service q in
          let done =
            create-IsCreated w s.forms q.client p a
              (created_inj (create w s.forms q.client p).1 a k) in
          record {
            service = service;
            found = e;
            posted = m;
            admitted = done.admitted;
            paste = done.paste;
            made = done.made;
            kept =
                paste_of-IsKept parse_duration seconds lexers w.now service q done.paste done.made;
            lookups = done.lookups;
          }
      by_method service false true e m k = cc
      by_method service false false e m k = cc

      routed :
          (o : Option Service)
          → route q.path ≡ o
          → (dispatch parse_duration seconds lexers w r s q o).1 ≡ created a
          → IsTaken w s (dispatch parse_duration seconds lexers w r s q o).0 q a
      routed none e k = cc
      routed (some service) e k =
          by_method service (creates service q.method) (reads service q.method) e refl k

  -- A refusal, whatever its reason, leaves the pastes as they were.
  pub handle_compat_error :
      (w : World) (r : Reading.World) (s : Api) (q : CompatRequest) (e : Error)
      → (handle_compat parse_duration seconds lexers w r s q).1 ≡ refused e
      → (handle_compat parse_duration seconds lexers w r s q).0.forms.db ≡ s.forms.db
  unfolding handle_compat serve hastebin_get served
  handle_compat_error w r s q e h = routed (route q.path) h
    where
      by_method :
          (service : Service) (b c : Bool)
          → (served w r s q service b c).1 ≡ refused e
          → (served w r s q service b c).0.forms.db ≡ s.forms.db
      by_method service true c k =
          let p = paste_of parse_duration seconds lexers w.now service q in
          let (x, failed) = refused_inj (create w s.forms q.client p).1 e k in
          create_error w s.forms q.client p x failed
      by_method service false true k = cc
      by_method service false false k = refl

      routed :
          (o : Option Service)
          → (dispatch parse_duration seconds lexers w r s q o).1 ≡ refused e
          → (dispatch parse_duration seconds lexers w r s q o).0.forms.db ≡ s.forms.db
      routed none k = refl
      routed (some service) k =
          by_method service (creates service q.method) (reads service q.method) k
