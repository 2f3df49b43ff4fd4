-- ===== src/Api/Tests.antt =====
-- A paste that is created on a private instance, one that is refused, and a listing.
use caspaste.Prelude.{
  ℕ, List, ◌≡◌, refl, Bool, true, false, none, some, [], ◌∷◌, Text, text_eq, codes, has_prefix,
  replace_from, count_from, if◌then◌else◌, Option, split_on,
}
use caspaste.Prelude.Int.{pos}
use caspaste.Prelude.Numbers.{atoi, trim_space}
use caspaste.Prelude.Strings.{to_lower, equal_fold, occurs, runes_from}
use caspaste.Prelude.Table.{affected}
use caspaste.RateLimit.{new_rate_limit, new_rate_limit_system, check_and_use_all, check_and_use}
use caspaste.Lineend.{unknown_to_unix, get_line_end}
use caspaste.Validation.Bools.{is_truthy}
use caspaste.Password.Argon.{IdKey, done}
use caspaste.Password.Entries.{load_file, load_lines, add_line}
use caspaste.Password.Accounts.{load_and_check, check}
use caspaste.BruteForce.{check_blocked, record_failure, new_brute_force_protection}
use caspaste.Storage.Rows.{Paste}
use caspaste.Storage.{Added, paste_add, gen_token_crypto, insert_row, PasteListItem, item_of}
use caspaste.Form.Request.{Values, Request, Settings, form, decode}
use caspaste.Form.Upload.{with_file}
use caspaste.Form.Checks.{
  read_paste, clean_title, check_sizes, line_ends, check_syntax, expiration, one_use_value,
  check_author, check_url, check_original,
}
use caspaste.Form.Handler.{World, paste_from, check_paste, paste_add_from_form, store}
use caspaste.Form
use caspaste.Api.{Api, Call, Access, ok, err, unauthorized, success, failure, create_paste}
use caspaste.Api.Creation.{IsAuthorized, create_paste-IsAuthorized, create_paste_error}

abbrev settings : Settings
settings = record {
  title_max_len = pos 20;
  body_max_len = pos 100;
  max_life_time = pos 3600;
  lexer_names = codes "plaintext" ∷ [];
}

unfoldable values : Values
unfolding text_eq
values key = if text_eq key (codes "body") then codes "x" else []

abbrev world : World
world = record {
  now5 = 1000;
  now15 = 1000;
  now60 = 1000;
  now = 1000;
  created = 1000;
  draws = some 0 ∷ some 1 ∷ some 2 ∷ some 3 ∷ some 4 ∷ some 5 ∷ some 6 ∷ some 7 ∷ [];
  primary = none;
  backup = none;
}

abbrev server : Api
unfolding new_rate_limit_system
server = record {
  forms = record {
    limits = new_rate_limit_system 1 5 9;
    db = record { pool = []; backup_pool = none };
  };
  limits_get = new_rate_limit_system 1 5 9;
  brute_force = some (new_brute_force_protection 5 900 0);
}

abbrev file : Option Text
file = some (codes "u:$2a$x")

abbrev access : Access
access = record { public = false; password_file = some file }

no_key : IdKey
no_key password salt time memory threads len = none

unfoldable is_pass : Text → Text → Bool
unfolding text_eq
is_pass hash password = text_eq password (codes "p")

abbrev call : Call
call = record {
  basic_auth = some (codes "u", codes "p");
  client = some (codes "10.0.0.1");
  request = record { is_post = true; client = codes "10.0.0.1"; payload = form (some values) none };
  tested = 1000;
  recorded = (1000, 1000);
}

abbrev answer : Added
answer = record { id = codes "abcdefgh"; create_time = 1000; delete_time = pos 0; error = none }

created_lem :
    create_paste no_key is_pass access settings world server call
    ≡ done (
      record server {
        forms = (paste_add_from_form settings world server.forms call.request).0;
        brute_force = success call server.brute_force;
      },
      ok answer,
    )
unfolding create_paste check_blocked load_and_check check load_file load_lines add_line split_on
    is_pass new_brute_force_protection paste_add_from_form check_and_use_all check_and_use
    new_rate_limit new_rate_limit_system store paste_add gen_token_crypto insert_row decode
    paste_from values with_file check_paste read_paste clean_title check_sizes line_ends
    check_syntax expiration one_use_value check_author check_url check_original to_lower trim_space
    equal_fold occurs has_prefix atoi runes_from replace_from count_from unknown_to_unix
    get_line_end is_truthy text_eq affected
created_lem = refl

create_paste-IsAuthorized_example :
    let s' : Api = record server {
      forms = (paste_add_from_form settings world server.forms call.request).0;
      brute_force = success call server.brute_force;
    } in
    IsAuthorized no_key is_pass file call server.brute_force
    × (paste_add_from_form settings world server.forms call.request
        ≡ (s'.forms, Form.Request.ok answer))
    × (s'.brute_force ≡ success call server.brute_force)
create_paste-IsAuthorized_example =
    create_paste-IsAuthorized no_key is_pass access file settings world server _ call answer refl
      refl created_lem

-- A wrong password.
abbrev wrong : Call
wrong = record call { basic_auth = some (codes "u", codes "q") }

refused_lem :
    create_paste no_key is_pass access settings world server wrong
    ≡ done (record server { brute_force = failure wrong server.brute_force }, err unauthorized)
unfolding create_paste check_blocked load_and_check check load_file load_lines add_line split_on
    is_pass new_brute_force_protection has_prefix trim_space text_eq record_failure server
refused_lem = refl

create_paste_error_example :
    (record server { brute_force = failure wrong server.brute_force }).forms.db ≡ server.forms.db
create_paste_error_example =
    create_paste_error no_key is_pass access settings world server
      (record server { brute_force = failure wrong server.brute_force }) wrong unauthorized
      refused_lem

abbrev row : Text → ℕ → Bool → Paste
row id created is_private = record {
  id = id;
  title = codes "t";
  body = codes "x";
  create_time = created;
  delete_time = pos 0;
  one_use = true;
  syntax = codes "plaintext";
  author = [];
  author_email = [];
  author_url = [];
  is_file = false;
  file_name = [];
  mime_type = [];
  is_editable = false;
  is_private = is_private;
  is_url = false;
  original_url = [];
}

-- Two public pastes, the older of which is the second page, and a private one.
abbrev filled : Api
filled = record server {
  forms = record server.forms {
    db = record {
      pool = row (codes "a") 1 false ∷ row (codes "b") 2 true ∷ row (codes "c") 3 false ∷ [];
      backup_pool = none;
    };
  };
}

abbrev second_page : List PasteListItem
second_page = item_of (row (codes "a") 1 false) ∷ []
