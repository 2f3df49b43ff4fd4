-- ===== src/Api/Compat/Pastes.antt =====
-- The paste that each interface makes of a request.
use caspaste.Prelude.{
  ℕ, ◌+◌, ltb, ◌||◌, true, false, if◌then◌else◌, Option, none, some, List, [], ◌∷◌, Text, text_eq,
  codes,
}
use caspaste.Prelude.Int.{ℤ, pos, negsuc}
use caspaste.Prelude.Base64.{base64}
use caspaste.Lineend.{unknown_to_unix}
use caspaste.Validation.Bools.{is_truthy}
use caspaste.Storage.Rows.{Paste}
use caspaste.Form.Request.{Values, Upload, Result, ok, err, bad_request, read_failed, parse_failed}
use caspaste.Form.Checks.{int64}
use caspaste.Api.Compat.{
  Service, sprunge, ix, pastebin, stikked, microbin, lenpaste, termbin, hastebin, generic,
  CompatRequest, or_next, first_value, any_truthy, normalize_syntax, parse_pastebin_expire,
  delete_after, expire_in,
}

-- `storage.Paste{}` with this syntax.
abbrev pub with_syntax : Text → Paste
with_syntax syntax = record {
  id = [];
  title = [];
  body = [];
  create_time = 0;
  delete_time = pos 0;
  one_use = false;
  syntax = syntax;
  author = [];
  author_email = [];
  author_url = [];
  is_file = false;
  file_name = [];
  mime_type = [];
  is_editable = false;
  is_private = false;
  is_url = false;
  original_url = [];
}

-- The body, which is not empty, as `UnknownToUnix` gives it.
unfoldable pub with_body : Text → Paste → Result Paste
unfolding unknown_to_unix
with_body [] p = err bad_request
with_body (c ∷ t) p = ok (record p { body = unknown_to_unix (c ∷ t) })

abbrev pub plain_body : Text → Result Paste
plain_body body = with_body body (with_syntax (codes "plaintext"))

abbrev pub raw_body : Option Text → Result Paste
raw_body none = err read_failed
raw_body (some body) = plain_body body

-- The syntax under the first of the names that has one.
abbrev pub syntax_of : List Text → Values → List Text → Text
syntax_of lexers v names =
    normalize_syntax lexers (or_next (first_value v names) (codes "plaintext"))

-- `N` is for a paste that is kept.
unfoldable pub pastebin_delete_time : ℕ → Text → ℤ
unfolding parse_pastebin_expire delete_after text_eq
pastebin_delete_time now expire =
    if text_eq expire [] || text_eq expire (codes "N")
    then pos 0
    else delete_after now (pos (parse_pastebin_expire expire))

unfoldable pub pastebin_paste : List Text → ℕ → Values → Result Paste
unfolding is_truthy text_eq first_value pastebin_delete_time
pastebin_paste lexers now v =
    let private = v (codes "api_paste_private") in
    with_body (v (codes "api_paste_code"))
      (record (with_syntax (syntax_of lexers v (codes "api_paste_format" ∷ []))) {
        title = v (codes "api_paste_name");
        is_private = is_truthy private || text_eq private (codes "2");
        delete_time = pastebin_delete_time now (v (codes "api_paste_expire_date"));
      })

unfoldable pub stikked_paste : List Text → ℕ → Values → Result Paste
unfolding first_value expire_in
stikked_paste lexers now v =
    with_body (first_value v (codes "text" ∷ codes "code" ∷ codes "data" ∷ []))
      (record (with_syntax (syntax_of lexers v (codes "lang" ∷ codes "language" ∷ []))) {
        title = first_value v (codes "title" ∷ codes "name" ∷ []);
        delete_time = expire_in now (v (codes "expire"));
      })

unfoldable pub microbin_paste : List Text → ℕ → Values → Result Paste
unfolding first_value expire_in is_truthy
microbin_paste lexers now v =
    with_body (first_value v (codes "content" ∷ codes "text" ∷ codes "editordata" ∷ []))
      (record (with_syntax (syntax_of lexers v (codes "syntax" ∷ []))) {
        title = v (codes "title");
        one_use = is_truthy (v (codes "burn"));
        is_private = is_truthy (v (codes "private"));
        delete_time = expire_in now (v (codes "expiration"));
      })

abbrev pub syntax_names : List Text
syntax_names =
    codes "syntax"
    ∷ codes "lang"
    ∷ codes "language"
    ∷ codes "type"
    ∷ codes "format"
    ∷ codes "lexer"
    ∷ []

unfoldable pub generic_paste : List Text → ℕ → Values → Result Paste
unfolding first_value expire_in any_truthy
generic_paste lexers now v =
    with_body
      (first_value v (
        codes "text"
        ∷ codes "content"
        ∷ codes "code"
        ∷ codes "data"
        ∷ codes "body"
        ∷ codes "paste"
        ∷ codes "snippet"
        ∷ codes "sprunge"
        ∷ codes "f:1"
        ∷ []))
      (record (with_syntax (syntax_of lexers v syntax_names)) {
        title = first_value v (codes "title" ∷ codes "name" ∷ codes "filename" ∷ []);
        delete_time = expire_in now (
            first_value v
              (codes "expiration" ∷ codes "expire" ∷ codes "ttl" ∷ codes "lifetime" ∷ []));
        one_use =
            any_truthy v
              (codes "oneUse" ∷ codes "burn" ∷ codes "burnAfterReading" ∷ codes "once" ∷ []);
        is_private = any_truthy v (codes "private" ∷ codes "unlisted" ∷ codes "secret" ∷ []);
      })

-- What stands for a file: its content as base64.
unfoldable pub lenpaste_file : Option Text → Upload → Paste → Result Paste
unfolding base64
lenpaste_file none u p = err read_failed
lenpaste_file (some content) u p = ok (record p {
  is_file = true;
  file_name = u.filename;
  mime_type = or_next u.content_type (codes "application/octet-stream");
  body = base64 content;
})

abbrev pub lenpaste_content : Values → Option Upload → Paste → Result Paste
lenpaste_content v none p = with_body (v (codes "body")) p
lenpaste_content v (some u) p = lenpaste_file u.content u p

-- `time.ParseDuration`, in nanoseconds, and the whole seconds of `Duration.Seconds` where it is
-- positive.
module _ (parse_duration : Text → Option ℤ) (seconds : ℕ → ℕ) where
  abbrev pub lifetime : ℕ → Option ℤ → ℤ
  lifetime now none = pos 0
  lifetime now (some (negsuc n)) = pos 0
  lifetime now (some (pos d)) = if ltb 0 d then int64 (now + seconds d) else pos 0

  unfoldable pub lenpaste_delete_time : ℕ → Values → ℤ
  unfolding text_eq expire_in
  lenpaste_delete_time now v =
      let life = v (codes "lifetime") in
      if text_eq life [] || text_eq life (codes "0")
      then expire_in now (v (codes "expiration"))
      else lifetime now (parse_duration life)

  -- All but the content.
  unfoldable pub lenpaste_head : List Text → ℕ → Values → Paste
  unfolding first_value lenpaste_delete_time is_truthy
  lenpaste_head lexers now v = record (with_syntax (syntax_of lexers v (codes "syntax" ∷ []))) {
    title = v (codes "title");
    one_use = is_truthy (v (codes "oneUse"));
    author = v (codes "author");
    author_url = v (codes "authorURL");
    delete_time = lenpaste_delete_time now v;
  }

  unfoldable pub lenpaste_paste : List Text → ℕ → Values → Option Upload → Result Paste
  unfolding lenpaste_head lenpaste_file
  lenpaste_paste lexers now v file = lenpaste_content v file (lenpaste_head lexers now v)

  -- From the form on, at the time `now`.
  unfoldable pub paste_of : List Text → ℕ → Service → CompatRequest → Result Paste
  unfolding with_body first_value pastebin_paste stikked_paste microbin_paste generic_paste
      lenpaste_paste
  paste_of lexers now sprunge q = plain_body (q.values (codes "sprunge"))
  paste_of lexers now ix q =
      plain_body (first_value q.values (codes "f:1" ∷ codes "f:0" ∷ codes "f" ∷ []))
  paste_of lexers now pastebin q = pastebin_paste lexers now q.values
  paste_of lexers now stikked q = stikked_paste lexers now q.values
  paste_of lexers now microbin q =
      if q.form_parses then microbin_paste lexers now q.values else err parse_failed
  paste_of lexers now lenpaste q = lenpaste_paste lexers now q.values q.file
  paste_of lexers now termbin q = raw_body q.raw
  paste_of lexers now hastebin q = raw_body q.raw
  paste_of lexers now generic q = generic_paste lexers now q.values
