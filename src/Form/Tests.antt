-- ===== src/Form/Tests.antt =====
-- Requests that are run, and the theorems at concrete inputs.
use caspaste.Prelude.{
  ◌≡◌, refl, true, false, none, some, [], ◌∷◌, text_eq, codes, has_prefix, replace_from, count_from,
  if◌then◌else◌,
}
use caspaste.Prelude.Int.{pos}
use caspaste.Prelude.Numbers.{atoi, trim_space}
use caspaste.Prelude.Strings.{to_lower, equal_fold, occurs, runes_from, is_invalid, more_bytes}
use caspaste.Prelude.Table.{affected}
use caspaste.RateLimit.{new_rate_limit, new_rate_limit_system, check_and_use_all, check_and_use}
use caspaste.Lineend.{unknown_to_unix, get_line_end}
use caspaste.Validation.Bools.{is_truthy}
use caspaste.Storage.{Added, paste_add, gen_token_crypto, insert_row}
use caspaste.Storage.Rows.{Paste}
use caspaste.Form.Request.{
  Values, Request, json, form, Settings, ok, err, bad_request, decode, json_values, format_int,
}
use caspaste.Prelude.Base64.{base64}
use caspaste.Form.Upload.{with_file, sanitize_filename}
use caspaste.Form.Checks.{
  read_paste, clean_title, check_sizes, line_ends, check_syntax, expiration, one_use_value,
  check_author, is_web, check_url, check_original,
}
use caspaste.Form.Handler.{World, Server, paste_from, check_paste, paste_add_from_form, store}
use caspaste.Form.Limits.{IsAcceptable, paste_from-IsAcceptable}
use caspaste.Form.Store.{counted, paste_add_from_form_error, IsStored, paste_add_from_form-IsStored}

abbrev settings : Settings
settings = record {
  title_max_len = pos 20;
  body_max_len = pos 100;
  max_life_time = pos 3600;
  lexer_names = codes "Go" ∷ codes "plaintext" ∷ [];
}

unfoldable values : Values
unfolding text_eq
values key =
    if text_eq key (codes "title")
    then codes "a\tb\n"
    else if text_eq key (codes "body")
    then codes "x\r\ny"
    else if text_eq key (codes "syntax")
    then codes "go"
    else if text_eq key (codes "expiration")
    then codes "60"
    else if text_eq key (codes "oneUse")
    then codes "3"
    else if text_eq key (codes "authorURL")
    then codes "HTTPS://example.org"
    else []

abbrev world : World
world = record {
  now5 = 1000;
  now15 = 1000;
  now60 = 1000;
  now = 1000;
  created = 1000;
  draws = some 0 ∷ some 1 ∷ some 2 ∷ some 3 ∷ some 4 ∷ some 5 ∷ some 6 ∷ some 7 ∷ [];
  primary = none;
  backup = none;
}

abbrev server : Server
unfolding new_rate_limit_system
server = record {
  limits = new_rate_limit_system 1 5 9;
  db = record { pool = []; backup_pool = none };
}

abbrev request : Request
request = record { is_post = true; client = codes "10.0.0.1"; payload = form (some values) none }

abbrev answer : Added
answer = record { id = codes "abcdefgh"; create_time = 1000; delete_time = pos 1060; error = none }

abbrev accepted : Paste
accepted = record {
  id = [];
  title = codes "a b";
  body = codes "x\ny";
  create_time = 0;
  delete_time = pos 1060;
  one_use = true;
  syntax = codes "Go";
  author = [];
  author_email = [];
  author_url = codes "HTTPS://example.org";
  is_file = false;
  file_name = [];
  mime_type = [];
  is_editable = false;
  is_private = false;
  is_url = false;
  original_url = [];
}

accepted_lem : paste_from settings 1000 values none ≡ ok accepted
unfolding paste_from values with_file check_paste read_paste clean_title check_sizes line_ends
    check_syntax expiration one_use_value check_author is_web check_url check_original to_lower
    trim_space equal_fold occurs has_prefix atoi runes_from replace_from count_from unknown_to_unix
    get_line_end is_truthy text_eq
accepted_lem = refl

answer_lem : (paste_add_from_form settings world server request).1 ≡ ok answer
unfolding paste_add_from_form check_and_use_all check_and_use new_rate_limit new_rate_limit_system
    store paste_add gen_token_crypto insert_row decode paste_from values with_file check_paste
    read_paste clean_title check_sizes line_ends check_syntax expiration one_use_value check_author
    is_web check_url check_original to_lower trim_space equal_fold occurs has_prefix atoi runes_from
    replace_from count_from unknown_to_unix get_line_end is_truthy text_eq affected
answer_lem = refl

paste_from-IsAcceptable_example : IsAcceptable settings 1000 accepted
paste_from-IsAcceptable_example =
    paste_from-IsAcceptable settings 1000 values none accepted accepted_lem

paste_add_from_form-IsStored_example :
    IsStored settings world server
      (paste_add_from_form settings world server request).0
      request
      answer
paste_add_from_form-IsStored_example =
    paste_add_from_form-IsStored settings world server request answer answer_lem

-- An expiration beyond the longest life.
abbrev too_long : Request
too_long = record request {
  payload = json (
      some (record {
        title = [];
        body = codes "x";
        syntax = [];
        expiration = pos 3601;
        one_use = false;
        author = [];
        author_email = [];
        author_url = [];
        editable = false;
        private = false;
        is_url = false;
        original_url = [];
        line_end = [];
      }));
}

too_long_lem : (paste_add_from_form settings world server too_long).1 ≡ err bad_request
unfolding paste_add_from_form check_and_use_all check_and_use new_rate_limit new_rate_limit_system
    store decode json_values format_int paste_from with_file check_paste read_paste clean_title
    check_sizes line_ends check_syntax expiration to_lower trim_space equal_fold has_prefix atoi
    runes_from replace_from count_from unknown_to_unix get_line_end is_truthy text_eq
too_long_lem = refl

paste_add_from_form_error_run :
    (paste_add_from_form settings world server too_long).0
    ≡ record server { limits = counted settings world server too_long }
paste_add_from_form_error_run =
    paste_add_from_form_error settings world server too_long bad_request too_long_lem

encoded : base64 (codes "Man") ≡ codes "TWFu"
unfolding base64
encoded = refl

padded : base64 (codes "Ma") ≡ codes "TWE="
unfolding base64
padded = refl

safe_name : sanitize_filename (codes "../a\tb") ≡ codes "..ab"
unfolding sanitize_filename is_invalid more_bytes
safe_name = refl
