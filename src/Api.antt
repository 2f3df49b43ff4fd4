-- ===== src/Api.antt =====
-- src/apiv1/new.go, list.go and error.go: the interface under /api/v1/pastes. `id_key` and `bcrypt`
-- are the two hashes of passwords.
mod Creation
mod Lists
mod Compat
mod Tests
use caspaste.Prelude.{
  ℕ, ltb, ◌||◌, ◌&&◌, not, Bool, true, false, if◌then◌else◌, Option, none, some, List, [], ◌∷◌,
  Text, text_eq, codes,
}
use caspaste.Prelude.Int.{ℤ, pos, ltz}
use caspaste.Prelude.Numbers.{atoi}
use caspaste.Prelude.Table.{Outcome}
use caspaste.Password
use caspaste.Password.Argon.{IdKey, Run, done, panic}
use caspaste.Password.Accounts.{load_and_check}
use caspaste.BruteForce.{BruteForceProtection, check_blocked, record_failure, record_success}
use caspaste.RateLimit.{RateLimitSystem, check_and_use_all}
use caspaste.Storage
use caspaste.Storage.{Db, Added, PasteListItem, paste_list}
use caspaste.Form
use caspaste.Form.Request.{Request, Settings}
use caspaste.Form.Handler.{World, Server, paste_add_from_form}

pub data Error : Type 0 where
  bad_request unauthorized not_found method_not_allowed payload_too_large too_many_requests : Error
  rate_limited : ℕ → Error
  storage : Storage.Error → Error
  other : Error

pub data Result {ℓ} (A : Type ℓ) : Type ℓ where
  ok : A → Result A
  err : Error → Result A

-- The status and the code of the answer.
unfoldable pub get_error_info : Error → ℕ × Text
get_error_info bad_request = (400, codes "BAD_REQUEST")
get_error_info unauthorized = (401, codes "UNAUTHORIZED")
get_error_info (storage Storage.not_found_id) = (404, codes "NOT_FOUND")
get_error_info not_found = (404, codes "NOT_FOUND")
get_error_info method_not_allowed = (405, codes "METHOD_NOT_ALLOWED")
get_error_info payload_too_large = (413, codes "BAD_REQUEST")
get_error_info too_many_requests = (429, codes "RATE_LIMITED")
get_error_info (rate_limited seconds) = (429, codes "RATE_LIMITED")
get_error_info _ = (500, codes "SERVER_ERROR")

-- The errors of `PasteAddFromForm`.
abbrev pub form_error : Form.Request.Error → Error
form_error Form.Request.method_not_allowed = method_not_allowed
form_error Form.Request.bad_request = bad_request
form_error Form.Request.payload_too_large = payload_too_large
form_error (Form.Request.too_many_requests seconds) = rate_limited seconds
form_error Form.Request.parse_failed = other
form_error Form.Request.read_failed = other
form_error (Form.Request.storage e) = storage e

abbrev pub form_result : Form.Request.Result Added → Result Added
form_result (Form.Request.ok a) = ok a
form_result (Form.Request.err e) = err (form_error e)

-- `data.BruteForce` may be nil. `limits_get` is for what is read.
pub record Api : Type 0 where
  pub forms : Server
  pub limits_get : RateLimitSystem
  pub brute_force : Option BruteForceProtection

-- A request: the name and the password of its header, the address of the client, what the form
-- sends, and the readings of the clock of the protection.
pub record Call : Type 0 where
  pub basic_auth : Option (Text × Text)
  pub client : Option Text
  pub request : Request
  pub tested : ℕ
  pub recorded : ℕ × ℕ

-- `Public`, and the content of the file of passwords, if one is configured.
pub record Access : Type 0 where
  pub public : Bool
  pub password_file : Option (Option Text)

abbrev pub is_blocked : Call → Option BruteForceProtection → Bool
is_blocked q none = false
is_blocked q (some b) = check_blocked b q.client q.tested

abbrev failure : Call → Option BruteForceProtection → Option BruteForceProtection
failure q none = none
failure q (some b) = some (record_failure b q.client q.recorded.0 q.recorded.1)

abbrev success : Call → Option BruteForceProtection → Option BruteForceProtection
success q none = none
success q (some b) = some (record_success b q.client)

module _ (id_key : IdKey) (bcrypt : Text → Text → Bool) where
  abbrev pub verdict :
      Call
      → Option BruteForceProtection
      → Run (Password.Entries.Result Bool)
      → Run (Option BruteForceProtection × Result (Unit {0}))
  verdict q b panic = panic
  verdict q b (done (Password.Entries.err e)) = done (b, err other)
  verdict q b (done (Password.Entries.ok true)) = done (success q b, ok tt)
  verdict q b (done (Password.Entries.ok false)) = done (failure q b, err unauthorized)

  abbrev pub checked :
      Option Text
      → Call
      → Option BruteForceProtection
      → Option (Text × Text)
      → Run (Option BruteForceProtection × Result (Unit {0}))
  checked file q b none = done (failure q b, err unauthorized)
  checked file q b (some (user, pass)) = verdict q b (load_and_check id_key bcrypt file user pass)

  -- The test of a private instance.
  unfoldable pub authorize :
      Access
      → Call
      → Option BruteForceProtection
      → Run (Option BruteForceProtection × Result (Unit {0}))
  authorize a q b = elim a.password_file [
    | none ↦ done (b, ok tt)
    | some file ↦
        (if a.public
          then done (b, ok tt)
          else if is_blocked q b
          then done (b, err too_many_requests)
          else checked file q b q.basic_auth)
  ]

  abbrev pub admitted :
      Settings
      → World
      → Api
      → Call
      → Run (Option BruteForceProtection × Result (Unit {0}))
      → Run (Api × Result Added)
  admitted c w s q panic = panic
  admitted c w s q (done (b, err e)) = done (record s { brute_force = b }, err e)
  admitted c w s q (done (b, ok u)) =
      let (forms, r) = paste_add_from_form c w s.forms q.request in
      if q.request.is_post
      then done (record s { forms = forms; brute_force = b }, form_result r)
      else done (record s { brute_force = b }, err method_not_allowed)

  unfoldable pub create_paste : Access → Settings → World → Api → Call → Run (Api × Result Added)
  unfolding authorize
  create_paste a c w s q = admitted c w s q (authorize a q s.brute_force)

-- A parameter of the query: its default, and the test on its number.
abbrev pub number : (ℤ → Bool) → Option ℤ → Result ℤ
number good none = err bad_request
number good (some n) = if good n then ok n else err bad_request

abbrev pub parameter : ℤ → (ℤ → Bool) → Text → Result ℤ
parameter default good [] = ok default
parameter default good (c ∷ t) = number good (atoi (c ∷ t))

abbrev pub is_limit : ℤ → Bool
is_limit n = ltz (pos 0) n && not (ltz (pos 100) n)

abbrev pub is_offset : ℤ → Bool
is_offset n = not (ltz n (pos 0))

unfoldable pub limit_of : Text → Result ℤ
limit_of = parameter (pos 50) is_limit

unfoldable pub offset_of : Text → Result ℤ
offset_of = parameter (pos 0) is_offset

abbrev pub listed : Storage.Result (List PasteListItem) → Result (List PasteListItem)
listed (Storage.Result.ok page) = ok page
listed (Storage.Result.err e) = err (storage e)

abbrev pub page_of : ℕ → Outcome → Db → Result ℤ → Result ℤ → Result (List PasteListItem)
page_of now o db (err e) offset = err e
page_of now o db (ok limit) (err e) = err e
page_of now o db (ok limit) (ok offset) = listed (paste_list now o db limit offset)

abbrev pub unless_limited : Option ℕ → Result (List PasteListItem) → Result (List PasteListItem)
unless_limited none r = r
unless_limited (some seconds) r = err (rate_limited seconds)

-- The values `limit` and `offset` of the query.
unfoldable pub list_pastes :
    World → Outcome → Api → Text → Text → Text → Api × Result (List PasteListItem)
unfolding limit_of offset_of
list_pastes w o s client limit offset =
    let (limits, wait) = check_and_use_all s.limits_get client w.now5 w.now15 w.now60 in
    (
      record s { limits_get = limits },
      unless_limited wait (page_of w.now o s.forms.db (limit_of limit) (offset_of offset)),
    )

-- What `handlePastes` makes of a request. The path is without the base path of the API.
pub data Operation : Type 0 where
  creates : Operation
  gets : Text → Operation
  lists : Operation
  refuses : Error → Operation

abbrev by_id : Text → Text → Operation
by_id [] [] = lists
by_id [] (c ∷ after) = gets (c ∷ after)
by_id (c ∷ id) after = gets (c ∷ id)

-- The method, the value `id` of the form, and what stands after `/pastes/` in the path.
unfoldable pub handle_pastes : Text → Text → Text → Operation
unfolding text_eq
handle_pastes method id after =
    if text_eq method (codes "POST")
    then creates
    else if text_eq method (codes "GET")
    then by_id id after
    else refuses method_not_allowed
