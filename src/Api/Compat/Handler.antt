-- ===== src/Api/Compat/Handler.antt =====
-- `handleCompat`: the limits, the paste, and its storing, or the reading of hastebin.
use caspaste.Prelude.{
  ℕ, ◌==◌, ◌||◌, Bool, false, if◌then◌else◌, Option, none, some, List, [], ◌∷◌, Text, text_eq,
  codes, has_prefix, drop,
}
use caspaste.Prelude.Int.{ℤ}
use caspaste.RateLimit.{check_and_use_all}
use caspaste.Storage.{Added}
use caspaste.Storage.Rows.{Paste}
use caspaste.Form.Request.{Result, ok, err, too_many_requests}
use caspaste.Form.Handler.{World, Server, store}
use caspaste.Reading
use caspaste.Reading.{get_paste}
use caspaste.Api.{Error, not_found, method_not_allowed, form_error, Api}
use caspaste.Api.Compat.{Service, termbin, hastebin, CompatRequest, route}
use caspaste.Api.Compat.Pastes.{paste_of}

-- An id, what a reading has come to, or an error.
pub data Reply : Type 0 where
  created : Added → Reply
  read : Reading.Phase → Reply
  refused : Error → Reply

abbrev pub reply_of : Result Added → Reply
reply_of (ok a) = created a
reply_of (err e) = refused (form_error e)

abbrev pub creates : Service → Text → Bool
creates termbin method = text_eq method (codes "POST") || text_eq method (codes "PUT")
creates _ method = text_eq method (codes "POST")

abbrev pub reads : Service → Text → Bool
reads hastebin method = text_eq method (codes "GET")
reads _ method = false

abbrev trim_slash : Text → Text
trim_slash [] = []
trim_slash (c ∷ []) = if c == b'/' then [] else c ∷ []
trim_slash (c ∷ d ∷ t) = c ∷ trim_slash (d ∷ t)

-- What stands after `/documents/`.
unfoldable pub key_of : Text → Text
unfolding has_prefix
key_of path = trim_slash (if has_prefix (codes "/documents/") path then drop 11 path else path)

unfoldable pub hastebin_get : Reading.World → Api → CompatRequest → Api × Reply
unfolding key_of
hastebin_get w s q =
    let (server, phase) =
      get_paste Reading.hastebin w (record { limits = s.limits_get; db = s.forms.db }) q.client
        (key_of q.path) in
    (record s { forms = record s.forms { db = server.db }; limits_get = server.limits }, read phase)

-- After the limits, which give the seconds to wait if they refuse.
unfoldable pub admit : World → Server → Result Paste → Option ℕ → Server × Result Added
admit w s p (some seconds) = (s, err (too_many_requests seconds))
admit w s p none = store w s p

unfoldable pub create : World → Server → Text → Result Paste → Server × Result Added
unfolding admit
create w s client p =
    let (limits, wait) = check_and_use_all s.limits client w.now5 w.now15 w.now60 in
    admit w (record s { limits = limits }) p wait

module _ (parse_duration : Text → Option ℤ) (seconds : ℕ → ℕ) (lexers : List Text) where
  unfoldable pub serve : World → Reading.World → Api → CompatRequest → Service → Api × Reply
  unfolding create hastebin_get
  serve w r s q service =
      if creates service q.method
      then (let p = paste_of parse_duration seconds lexers w.now service q in
          let (forms, answer) = create w s.forms q.client p in
          (record s { forms = forms }, reply_of answer))
      else if reads service q.method
      then hastebin_get r s q
      else (s, refused method_not_allowed)

  abbrev pub dispatch : World → Reading.World → Api → CompatRequest → Option Service → Api × Reply
  dispatch w r s q none = (s, refused not_found)
  dispatch w r s q (some service) = serve w r s q service

  unfoldable pub handle_compat : World → Reading.World → Api → CompatRequest → Api × Reply
  unfolding serve route
  handle_compat w r s q = dispatch w r s q (route q.path)
