-- ===== src/Form/Checks.antt =====
-- The checks of `PasteAddFromForm` on a paste, in the order of the source.
use caspaste.Prelude.{
  ℕ, ◌+◌, ◌-◌, ◌^◌, ltb, ◌==◌, ◌&&◌, ◌||◌, not, Bool, true, false, if◌then◌else◌, Option, none,
  some, List, [], ◌∷◌, Text, text_eq, codes, replace_all, has_prefix,
}
use caspaste.Prelude.Int.{ℤ, pos, negsuc, ltz}
use caspaste.Prelude.Numbers.{atoi, trim_space}
use caspaste.Prelude.Strings.{rune_count, equal_fold, to_lower, occurs}
use caspaste.Lineend.{unknown_to_unix, unknown_to_dos, unknown_to_old_mac}
use caspaste.Validation.Bools.{is_truthy}
use caspaste.Storage.Rows.{Paste}
use caspaste.Form.Request.{
  Values, Settings, Result, ok, err, bad_request, payload_too_large, ◌>>=◌, ◌>>◌, refuse_if,
}

abbrev pub max_length_author_all : ℕ
max_length_author_all = 100

-- The paste as the form gives it.
unfoldable pub read_paste : Values → Paste
unfolding is_truthy
read_paste v = record {
  id = [];
  title = v (codes "title");
  body = v (codes "body");
  create_time = 0;
  delete_time = pos 0;
  one_use = false;
  syntax = v (codes "syntax");
  author = v (codes "author");
  author_email = v (codes "authorEmail");
  author_url = v (codes "authorURL");
  is_file = false;
  file_name = [];
  mime_type = [];
  is_editable = is_truthy (v (codes "editable"));
  is_private = is_truthy (v (codes "private"));
  is_url = is_truthy (v (codes "url"));
  original_url = v (codes "originalURL");
}

abbrev pub is_empty : Text → Bool
is_empty [] = true
is_empty (c ∷ t) = false

-- One line, without tabs.
unfoldable pub clean_title : Text → Text
clean_title t =
    replace_all (replace_all (replace_all t (b'\n' ∷ []) []) (b'\r' ∷ []) []) (b'\t' ∷ [])
      (b' ' ∷ [])

-- More runes than the limit.
abbrev pub above : ℤ → Text → Bool
above most t = ltz most (pos (rune_count t))

-- The checks on the title, the body and the address.
unfoldable pub check_sizes : Settings → Paste → Result (Unit {0})
check_sizes s p = do
  refuse_if (above s.title_max_len p.title && not (ltz s.title_max_len (pos 0))) payload_too_large
  refuse_if (is_empty p.body && not p.is_url) bad_request
  refuse_if (p.is_url && is_empty p.original_url) bad_request
  refuse_if (above s.body_max_len p.body && ltz (pos 0) s.body_max_len) payload_too_large

-- The `switch` on `lineEnd`.
unfoldable pub convert : Text → Text → Result Text
unfolding text_eq
convert style body =
    if text_eq style [] || text_eq style (codes "LF") || text_eq style (codes "lf")
    then ok (unknown_to_unix body)
    else if text_eq style (codes "CRLF") || text_eq style (codes "crlf")
    then ok (unknown_to_dos body)
    else if text_eq style (codes "CR") || text_eq style (codes "cr")
    then ok (unknown_to_old_mac body)
    else err bad_request

unfoldable pub line_ends : Text → Paste → Result Paste
unfolding convert
line_ends style p =
    if p.is_file then ok p else (do body ← convert style p.body; ok (record p { body = body }))

-- The lexer of that name, whatever its case.
unfoldable pub find_lexer : Text → List Text → Option Text
find_lexer syntax [] = none
find_lexer syntax (name ∷ names) =
    if equal_fold name syntax then some name else find_lexer syntax names

abbrev pub or_plaintext : Text → Text
or_plaintext [] = codes "plaintext"
or_plaintext (c ∷ t) = c ∷ t

abbrev pub found : Option Text → Result Text
found none = err bad_request
found (some name) = ok name

unfoldable pub check_syntax : List Text → Text → Result Text
unfolding find_lexer
check_syntax names syntax =
    if equal_fold (or_plaintext syntax) (codes "autodetect")
    then ok (codes "autodetect")
    else found (find_lexer (or_plaintext syntax) names)

-- A sum as an `int64`.
abbrev pub int64 : ℕ → ℤ
int64 n = if ltb n (2 ^ 63) then pos n else negsuc (2 ^ 64 - n - 1)

abbrev pub expire_at : ℤ → ℕ → ℤ → Result ℤ
expire_at max_life_time now expir =
    if ltz (pos 0) max_life_time && (ltz max_life_time expir || not (ltz (pos 0) expir))
    then err bad_request
    else elim expir [
      | pos n ↦ ok (if n == 0 then pos 0 else int64 (now + n))
      | negsuc n ↦ ok (pos 0)
    ]

abbrev pub expire_in : ℤ → ℕ → Option ℤ → Result ℤ
expire_in max_life_time now none = err bad_request
expire_in max_life_time now (some expir) = expire_at max_life_time now expir

-- The time of deletion, 0 for none. `strconv.ParseInt` reads what `Atoi` does.
unfoldable pub expiration : ℤ → ℕ → Text → Result ℤ
expiration max_life_time now [] = ok (pos 0)
expiration max_life_time now (c ∷ t) = expire_in max_life_time now (atoi (c ∷ t))

abbrev positive : Option ℤ → Bool
positive none = false
positive (some n) = ltz (pos 0) n

-- Whether the paste is burnt after reading.
unfoldable pub one_use_value : Text → Bool
unfolding is_truthy text_eq
one_use_value v =
    is_truthy v || (not (is_empty v) && not (text_eq v (codes "false")) && positive (atoi v))

unfoldable pub check_author : Paste → Result (Unit {0})
check_author p = do
  refuse_if (ltb max_length_author_all (rune_count p.author)) payload_too_large
  refuse_if (ltb max_length_author_all (rune_count p.author_email)) payload_too_large
  refuse_if (ltb max_length_author_all (rune_count p.author_url)) payload_too_large

-- The address in lower case begins with a web scheme and names no other.
unfoldable pub is_web : Text → Bool
is_web u =
    (has_prefix (codes "http://") u || has_prefix (codes "https://") u)
    && not (
        occurs (codes "javascript:") u
        || occurs (codes "data:") u
        || occurs (codes "vbscript:") u
        || occurs (codes "file:") u)

unfoldable pub check_url : Text → Result (Unit {0})
check_url u = refuse_if (not (is_empty u) && not (is_web (to_lower (trim_space u)))) bad_request

unfoldable pub check_original : Paste → Result (Unit {0})
check_original p = if p.is_url then check_url p.original_url else ok tt
