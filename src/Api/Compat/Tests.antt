-- ===== src/Api/Compat/Tests.antt =====
-- A paste by the interface of pastebin.com, one that is refused, and some inputs on the border.
use caspaste.Prelude.{
  ℕ, ◌-◌, ◌^◌, ◌≡◌, refl, true, Option, none, some, List, [], ◌∷◌, Text, text_eq, codes, has_prefix,
  if◌then◌else◌,
}
use caspaste.Prelude.Int.{ℤ, pos, negsuc}
use caspaste.Prelude.Numbers.{atoi}
use caspaste.Prelude.Strings.{to_lower, equal_fold}
use caspaste.Prelude.Table.{affected}
use caspaste.RateLimit.{new_rate_limit, new_rate_limit_system, check_and_use_all, check_and_use}
use caspaste.Validation.Bools.{is_truthy}
use caspaste.Storage.{Added, paste_add, gen_token_crypto, insert_row}
use caspaste.Form.Request.{Values}
use caspaste.Form.Checks.{find_lexer}
use caspaste.Form.Handler.{World, store}
use caspaste.Reading
use caspaste.Api.{Api, bad_request}
use caspaste.Api.Compat.{
  CompatRequest, route, normalize_syntax, alias_of, expire_in, parse_pastebin_expire,
}
use caspaste.Api.Compat.Pastes.{pastebin_paste, pastebin_delete_time, with_body, paste_of}
use caspaste.Api.Compat.Handler.{created, refused, create, handle_compat, key_of}
use caspaste.Api.Compat.Stored.{IsTaken, handle_compat-IsTaken, handle_compat_error}

abbrev lexers : List Text
lexers = codes "Python" ∷ codes "plaintext" ∷ []

unfoldable values : Values
unfolding text_eq
values key =
    if text_eq key (codes "api_paste_code")
    then codes "a\r\nb"
    else if text_eq key (codes "api_paste_format")
    then codes "py"
    else if text_eq key (codes "api_paste_expire_date")
    then codes "10m"
    else []

abbrev request : CompatRequest
request = record {
  path = codes "/api/api_post.php";
  method = codes "POST";
  client = codes "10.0.0.1";
  form_parses = true;
  values = values;
  file = none;
  raw = some [];
}

abbrev world : World
world = record {
  now5 = 1000;
  now15 = 1000;
  now60 = 1000;
  now = 1000;
  created = 1000;
  draws = some 0 ∷ some 1 ∷ some 2 ∷ some 3 ∷ some 4 ∷ some 5 ∷ some 6 ∷ some 7 ∷ [];
  primary = none;
  backup = none;
}

abbrev reading : Reading.World
reading = record {
  now5 = 1000;
  now15 = 1000;
  now60 = 1000;
  now = 1000;
  get₁ = none;
  get₂ = none;
  write₁ = none;
  write₂ = none;
}

abbrev server : Api
unfolding new_rate_limit_system
server = record {
  forms = record {
    limits = new_rate_limit_system 1 5 9;
    db = record { pool = []; backup_pool = none };
  };
  limits_get = new_rate_limit_system 1 5 9;
  brute_force = none;
}

no_duration : Text → Option ℤ
no_duration t = none

same : ℕ → ℕ
same n = n

abbrev answer : Added
answer = record { id = codes "abcdefgh"; create_time = 1000; delete_time = pos 1600; error = none }

created_lem :
    (handle_compat no_duration same lexers world reading server request).1 ≡ created answer
unfolding handle_compat check_and_use_all check_and_use new_rate_limit new_rate_limit_system store
    paste_add gen_token_crypto insert_row values pastebin_paste pastebin_delete_time
    parse_pastebin_expire text_eq affected with_body route has_prefix create paste_of is_truthy
created_lem = refl

handle_compat-IsTaken_example :
    IsTaken no_duration same lexers world server
      (handle_compat no_duration same lexers world reading server request).0
      request
      answer
handle_compat-IsTaken_example =
    handle_compat-IsTaken no_duration same lexers world reading server request answer created_lem

-- No body.
abbrev empty : CompatRequest
empty = record request { path = codes "/termbin"; method = codes "PUT" }

refused_lem :
    (handle_compat no_duration same lexers world reading server empty).1 ≡ refused bad_request
unfolding handle_compat check_and_use_all check_and_use new_rate_limit new_rate_limit_system store
    text_eq with_body route has_prefix create paste_of
refused_lem = refl

handle_compat_error_run :
    (handle_compat no_duration same lexers world reading server empty).0.forms.db ≡ server.forms.db
handle_compat_error_run =
    handle_compat_error no_duration same lexers world reading server empty bad_request refused_lem

-- The alias, and a lexer that is not there.
normalize_syntax-alias : normalize_syntax lexers (codes "PY") ≡ codes "Python"
unfolding normalize_syntax find_lexer equal_fold to_lower alias_of text_eq
normalize_syntax-alias = refl

normalize_syntax-missing : normalize_syntax lexers (codes "rb") ≡ codes "plaintext"
unfolding normalize_syntax find_lexer equal_fold to_lower alias_of text_eq
normalize_syntax-missing = refl

-- The end of the longest life is below zero, which is stored as 0.
expire_in-overflow : expire_in 1000 (codes "9223372036854775807") ≡ negsuc (2 ^ 63 - 1000)
unfolding expire_in atoi
expire_in-overflow = refl

-- The suffix that asks for plain text is not taken off.
route-txt : route (codes "/api/create.txt") ≡ none
unfolding route text_eq has_prefix
route-txt = refl

key_of-slash : key_of (codes "/documents/abc/") ≡ codes "abc"
unfolding key_of has_prefix
key_of-slash = refl
