-- ===== src/Form/Handler.antt =====
-- `PasteAddFromForm`.
use caspaste.Prelude.{ℕ, if◌then◌else◌, Option, none, some, List, codes}
use caspaste.Prelude.Table.{Outcome}
use caspaste.RateLimit.{RateLimitSystem, check_and_use_all}
use caspaste.Storage.{Db, Added, paste_add}
use caspaste.Storage.Rows.{Paste}
use caspaste.Form.Request.{
  Values, Upload, Request, Settings, Result, ok, err, method_not_allowed, too_many_requests,
  storage, ◌>>=◌, ◌>>◌, decode,
}
use caspaste.Form.Upload.{with_file}
use caspaste.Form.Checks.{
  read_paste, clean_title, check_sizes, line_ends, check_syntax, expiration, one_use_value,
  check_author, check_url, check_original,
}

-- The author and the addresses.
unfoldable pub final_checks : Paste → Result Paste
final_checks p = do check_author p; check_url p.author_url; check_original p; ok p

-- From the syntax on.
unfoldable pub finish : Settings → ℕ → Values → Paste → Result Paste
unfolding final_checks
finish s now v p = do
  syntax ← check_syntax s.lexer_names p.syntax
  delete_time ← expiration s.max_life_time now (v (codes "expiration"))
  final_checks (record p {
    syntax = syntax;
    delete_time = delete_time;
    one_use = one_use_value (v (codes "oneUse"));
  })

-- From the title on.
unfoldable pub check_paste : Settings → ℕ → Values → Paste → Result Paste
unfolding finish
check_paste s now v p₀ = do
  let p = record p₀ { title = clean_title p₀.title }
  check_sizes s p
  q ← line_ends (v (codes "lineEnd")) p
  finish s now v q

-- All that is done before the paste is stored, at the time `now`.
unfoldable pub paste_from : Settings → ℕ → Values → Option Upload → Result Paste
paste_from s now v file = with_file file (read_paste v) >>= check_paste s now v

-- The environment of a call: three readings of the clock for the limits, one for the expiration and
-- one for the creation, the draws for the id, and what the two statements came to.
pub record World : Type 0 where
  pub now5 : ℕ
  pub now15 : ℕ
  pub now60 : ℕ
  pub now : ℕ
  pub created : ℕ
  pub draws : List (Option ℕ)
  pub primary : Outcome
  pub backup : Outcome

pub record Server : Type 0 where
  pub limits : RateLimitSystem
  pub db : Db

abbrev pub added : Added → Result Added
added a = elim a.error [ none ↦ ok a | some e ↦ err (storage e) ]

-- The paste is stored if the checks let it through.
unfoldable pub store : World → Server → Result Paste → Server × Result Added
store w s (err e) = (s, err e)
store w s (ok p) =
    let (db, a) = paste_add w.draws w.created w.primary w.backup s.db p in
    (record s { db = db }, added a)

abbrev pub checked : Settings → ℕ → Request → Result Paste
checked c now req = do (v, file) ← decode req.payload; paste_from c now v file

-- After the limits, which give the seconds to wait if they refuse.
unfoldable pub after_limits : Settings → World → Server → Request → Option ℕ → Server × Result Added
after_limits c w s req (some seconds) = (s, err (too_many_requests seconds))
after_limits c w s req none = store w s (checked c w.now req)

unfoldable pub paste_add_from_form : Settings → World → Server → Request → Server × Result Added
unfolding after_limits
paste_add_from_form c w s req =
    if req.is_post
    then (let (limits, wait) = check_and_use_all s.limits req.client w.now5 w.now15 w.now60 in
        after_limits c w (record s { limits = limits }) req wait)
    else (s, err method_not_allowed)
