-- ===== src/Api/Creation.antt =====
-- Who creates pastes on a private instance, and what a refusal leaves.
use caspaste.Prelude.{
  ◌≡◌, refl, sym, ap, ◌∙◌, Bool, true, false, if◌then◌else◌, Option, none, some, Text,
}
use caspaste.Password
use caspaste.Password.Argon.{IdKey, Run, done, panic}
use caspaste.Password.Accounts.{load_and_check}
use caspaste.BruteForce.{BruteForceProtection}
use caspaste.Storage.{Added}
use caspaste.Form
use caspaste.Form.Request.{Settings}
use caspaste.Form.Handler.{World, Server, paste_add_from_form}
use caspaste.Form.Store.{paste_add_from_form_error}
use caspaste.Api.{
  Error, Result, ok, err, form_result, Api, Call, Access, is_blocked, success, verdict, checked,
  authorize, admitted, create_paste,
}

module _ (id_key : IdKey) (bcrypt : Text → Text → Bool) where
  -- The request came with a name and a password that the file of passwords has, from an address that
  -- is not locked out.
  pub record IsAuthorized (file : Option Text) (q : Call) (b : Option BruteForceProtection)
      : Type 0 where
    pub user : Text
    pub pass : Text
    pub sent : q.basic_auth ≡ some (user, pass)
    pub right : load_and_check id_key bcrypt file user pass ≡ done (Password.Entries.ok true)
    pub not_blocked : is_blocked q b ≡ false

  verdict-ok :
      (q : Call) (b b' : Option BruteForceProtection) (r : Run (Password.Entries.Result Bool))
      → verdict id_key bcrypt q b r ≡ done (b', ok tt)
      → (r ≡ done (Password.Entries.ok true)) × (b' ≡ success q b)
  verdict-ok q b b' panic h = cc
  verdict-ok q b b' (done (Password.Entries.err e)) h = cc
  verdict-ok q b b' (done (Password.Entries.ok false)) h = cc
  verdict-ok q b b' (done (Password.Entries.ok true)) h = (refl, cc)

  checked-ok :
      (file : Option Text) (q : Call) (b b' : Option BruteForceProtection)
      (auth : Option (Text × Text))
      → q.basic_auth ≡ auth
      → is_blocked q b ≡ false
      → checked id_key bcrypt file q b auth ≡ done (b', ok tt)
      → IsAuthorized file q b × (b' ≡ success q b)
  checked-ok file q b b' none e free h = cc
  checked-ok file q b b' (some (user, pass)) e free h =
      let (right, after) = verdict-ok q b b' (load_and_check id_key bcrypt file user pass) h in
      (record { user = user; pass = pass; sent = e; right = right; not_blocked = free }, after)

  authorize-ok :
      (a : Access) (file : Option Text) (q : Call) (b b' : Option BruteForceProtection)
      → a.public ≡ false
      → a.password_file ≡ some file
      → authorize id_key bcrypt a q b ≡ done (b', ok tt)
      → IsAuthorized file q b × (b' ≡ success q b)
  unfolding authorize
  authorize-ok a file q b b' p f h = unblocked (is_blocked q b) refl (rw f (rw p refl) ∙ h)
    where
      unblocked :
          (blocked : Bool)
          → is_blocked q b ≡ blocked
          → (if blocked
              then done (b, err Error.too_many_requests)
              else checked id_key bcrypt file q b q.basic_auth)
            ≡ done (b', ok tt)
          → IsAuthorized file q b × (b' ≡ success q b)
      unblocked true e k = cc
      unblocked false e k = checked-ok file q b b' q.basic_auth refl e k

  abbrev stored : Api → Option BruteForceProtection → Server → Api
  stored s b forms = record s { forms = forms; brute_force = b }

  -- How an answer with an id comes about.
  record Stores (c : Settings) (w : World) (s : Api) (q : Call) (s' : Api) (x : Added)
      (run : Run (Option BruteForceProtection × Result (Unit {0}))) : Type 0 where
    protection : Option BruteForceProtection
    passed : run ≡ done (protection, ok tt)
    forms : paste_add_from_form c w s.forms q.request ≡ (s'.forms, Form.Request.ok x)
    brute_force : s'.brute_force ≡ protection

  form_result-ok :
      (r : Form.Request.Result Added) (x : Added) → form_result r ≡ ok x → r ≡ Form.Request.ok x
  form_result-ok (Form.Request.ok a) x h = cc
  form_result-ok (Form.Request.err e) x h = cc

  done_inj :
      {p q : Api × Result Added} → ◌≡◌ {A = Run (Api × Result Added)} (done p) (done q) → p ≡ q
  done_inj e = cc

  admitted-Stores :
      (c : Settings) (w : World) (s s' : Api) (q : Call) (x : Added)
      (run : Run (Option BruteForceProtection × Result (Unit {0})))
      → admitted id_key bcrypt c w s q run ≡ done (s', ok x)
      → Stores c w s q s' x run
  admitted-Stores c w s s' q x panic h = cc
  admitted-Stores c w s s' q x (done (b, err e)) h = cc
  admitted-Stores c w s s' q x (done (b, ok u)) h = posted q.request.is_post h
    where
      forms' : Server
      forms' = (paste_add_from_form c w s.forms q.request).0

      posted :
          (p : Bool)
          → if◌then◌else◌ {A = Run (Api × Result Added)} p
              (done (stored s b forms', form_result (paste_add_from_form c w s.forms q.request).1))
              (done (record s { brute_force = b }, err Error.method_not_allowed))
            ≡ done (s', ok x)
          → Stores c w s q s' x (done (b, ok u))
      posted false k = cc
      posted true k =
          let pair = done_inj k in
          let state : stored s b forms' ≡ s' = ap (λ p. p.0) pair in
          let answer =
            form_result-ok (paste_add_from_form c w s.forms q.request).1 x (ap (λ p. p.1) pair) in
          record {
            protection = b;
            passed = refl;
            forms =
                ap (λ r. (forms', r)) answer ∙ ap (λ (t : Api). (t.forms, Form.Request.ok x)) state;
            brute_force = sym (ap (λ (t : Api). t.brute_force) state);
          }

  -- On a private instance with a file of passwords, a paste is created only for a request with the
  -- name and the password of a user in the file, from an address that is not locked out; the paste
  -- is then the one that `PasteAddFromForm` stores, and the failures of the address are forgotten.
  pub create_paste-IsAuthorized :
      (a : Access) (file : Option Text) (c : Settings) (w : World) (s s' : Api) (q : Call)
      (x : Added)
      → a.public ≡ false
      → a.password_file ≡ some file
      → create_paste id_key bcrypt a c w s q ≡ done (s', ok x)
      → IsAuthorized file q s.brute_force
        × (paste_add_from_form c w s.forms q.request ≡ (s'.forms, Form.Request.ok x))
        × (s'.brute_force ≡ success q s.brute_force)
  unfolding create_paste
  create_paste-IsAuthorized a file c w s s' q x p f h =
      let st = admitted-Stores c w s s' q x (authorize id_key bcrypt a q s.brute_force) h in
      let (authorized, after) = authorize-ok a file q s.brute_force st.protection p f st.passed in
      (authorized, st.forms, st.brute_force ∙ after)

  form_result-err :
      (r : Form.Request.Result Added) (e : Error)
      → form_result r ≡ err e
      → (f : Form.Request.Error) × (r ≡ Form.Request.err f)
  form_result-err (Form.Request.ok a) e h = cc
  form_result-err (Form.Request.err f) e h = (f, refl)

  admitted-err :
      (c : Settings) (w : World) (s s' : Api) (q : Call) (e : Error)
      (run : Run (Option BruteForceProtection × Result (Unit {0})))
      → admitted id_key bcrypt c w s q run ≡ done (s', err e)
      → s'.forms.db ≡ s.forms.db
  admitted-err c w s s' q e panic h = cc
  admitted-err c w s s' q e (done (b, err x)) h =
      sym (ap (λ (p : Api × Result Added). p.0.forms.db) (done_inj h))
  admitted-err c w s s' q e (done (b, ok u)) h = posted q.request.is_post h
    where
      answered : Server × Form.Request.Result Added
      answered = paste_add_from_form c w s.forms q.request

      posted :
          (p : Bool)
          → if◌then◌else◌ {A = Run (Api × Result Added)} p
              (done (stored s b answered.0, form_result answered.1))
              (done (record s { brute_force = b }, err Error.method_not_allowed))
            ≡ done (s', err e)
          → s'.forms.db ≡ s.forms.db
      posted false k = sym (ap (λ (p : Api × Result Added). p.0.forms.db) (done_inj k))
      posted true k =
          let pair = done_inj k in
          let (f, failed) = form_result-err answered.1 e (ap (λ p. p.1) pair) in
          sym (ap (λ (p : Api × Result Added). p.0.forms.db) pair)
          ∙ ap (λ (t : Server). t.db) (paste_add_from_form_error c w s.forms q.request f failed)

  -- A refusal, whatever its reason, leaves the pastes as they were.
  pub create_paste_error :
      (a : Access) (c : Settings) (w : World) (s s' : Api) (q : Call) (e : Error)
      → create_paste id_key bcrypt a c w s q ≡ done (s', err e)
      → s'.forms.db ≡ s.forms.db
  unfolding create_paste
  create_paste_error a c w s s' q e h =
      admitted-err c w s s' q e (authorize id_key bcrypt a q s.brute_force) h
