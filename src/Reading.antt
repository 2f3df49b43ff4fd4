-- ===== src/Reading.antt =====
-- The handlers that show a paste: src/apiv1/get.go, src/apiv1/compat.go, src/raw/handler.go,
-- src/web/dl.go, src/web/get.go, src/web/embedded.go and src/web/url.go, and src/web/edit.go, which
-- changes one. A handler takes the id that stands in its path or its form.
mod Takes
mod Races
mod Alone
mod Content
mod Edits
mod Tests
use caspaste.Prelude.{ℕ, Bool, true, false, Option, none, some, [], if◌then◌else◌, Text, text_eq}
use caspaste.Prelude.Table.{Outcome}
use caspaste.RateLimit.{RateLimitSystem, check_and_use_all}
use caspaste.Storage
use caspaste.Storage.{Db, paste_get, paste_delete, paste_delete_if_one_use}
use caspaste.Storage.Rows.{Paste}

pub data Error : Type 0 where
  bad_request method_not_allowed not_found unauthorized : Error
  too_many_requests : ℕ → Error
  storage : Storage.Error → Error

-- `page` says whether the visitor has pressed the button that confirms the reading.
pub data Route : Type 0 where
  api raw download hastebin embedded : Route
  page : Bool → Route

-- How far a request has come: it has the paste and must still delete it, it has shown the paste, it
-- has shown the question in its place, or it has failed.
pub data Phase : Type 0 where
  arrived asked : Phase
  found : Paste → Phase
  served : Paste → Phase
  refused : Error → Phase

pub record Reader : Type 0 where
  pub route : Route
  pub id : Text
  pub phase : Phase

-- `if paste.OneUse`.
abbrev pub claim : Route → Paste → Phase
claim embedded p = served p
claim (page false) p = asked
claim _ p = found p

-- What a handler does with the answer of `PasteGet`.
abbrev pub looked : Route → Storage.Result Paste → Phase
looked r (Storage.Result.err e) = refused (storage e)
looked r (Storage.Result.ok p) = if p.one_use then claim r p else served p

abbrev pub deleted : Paste → Storage.Result (Unit {0}) → Phase
deleted p (Storage.Result.ok done) = served p
deleted p (Storage.Result.err e) = refused (storage e)

abbrev pub burnt : Paste → Storage.Result Bool → Phase
burnt p (Storage.Result.err e) = refused (storage e)
burnt p (Storage.Result.ok true) = served p
burnt p (Storage.Result.ok false) = refused (storage Storage.not_found_id)

-- The deletion that comes before the paste is shown.
unfoldable pub removal : Route → Outcome → Outcome → Db → Text → Paste → Db × Phase
removal (page continued) o₁ o₂ db id p =
    let (db', r) = paste_delete_if_one_use o₁ o₂ db id in (db', burnt p r)
removal hastebin o₁ o₂ db id p = ((paste_delete o₁ o₂ db id).0, served p)
removal _ o₁ o₂ db id p = let (db', r) = paste_delete o₁ o₂ db id in (db', deleted p r)

abbrev next_phase : Route → Phase → ℕ → Outcome → Outcome → Db → Text → Db × Phase
next_phase r arrived now o₁ o₂ db id =
    let (db', answer) = paste_get now o₁ o₂ db id in (db', looked r answer)
next_phase r (found p) now o₁ o₂ db id = removal r o₁ o₂ db id p
next_phase r phase now o₁ o₂ db id = (db, phase)

-- The next call to the database that the handler makes, with the time and what its statements come
-- to. Other requests may run between one call and the next.
unfoldable pub step : ℕ → Outcome → Outcome → Db → Reader → Db × Reader
unfolding removal
step now o₁ o₂ db r =
    let (db', phase) = next_phase r.route r.phase now o₁ o₂ db r.id in
    (db', record r { phase = phase })

-- The clock as the handler reads it, and what its calls to the database come to.
pub record World : Type 0 where
  pub now5 : ℕ
  pub now15 : ℕ
  pub now60 : ℕ
  pub now : ℕ
  pub get₁ : Outcome
  pub get₂ : Outcome
  pub write₁ : Outcome
  pub write₂ : Outcome

pub record Server : Type 0 where
  pub limits : RateLimitSystem
  pub db : Db

-- Both calls, where no other request comes between.
unfoldable pub read_through : Route → World → Db → Text → Db × Phase
unfolding step
read_through route w db id =
    let (db₁, r₁) =
      step w.now w.get₁ w.get₂ db (record { route = route; id = id; phase = arrived }) in
    let (db₂, r₂) = step w.now w.write₁ w.write₂ db₁ r₁ in (db₂, r₂.phase)

-- Only the two interfaces look whether the id is empty.
abbrev pub is_missing : Route → Text → Bool
is_missing api id = text_eq id []
is_missing hastebin id = text_eq id []
is_missing _ id = false

after_limit : Route → World → Server → Text → Option ℕ → Server × Phase
after_limit route w s id (some seconds) = (s, refused (too_many_requests seconds))
after_limit route w s id none =
    if is_missing route id
    then (s, refused bad_request)
    else (let (db, phase) = read_through route w s.db id in (record s { db = db }, phase))

-- The handlers, for a client at this address.
unfoldable pub get_paste : Route → World → Server → Text → Text → Server × Phase
unfolding after_limit read_through
get_paste route w s client id =
    let (limits, wait) = check_and_use_all s.limits client w.now5 w.now15 w.now60 in
    after_limit route w (record s { limits = limits }) id wait
