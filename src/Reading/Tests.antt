-- ===== src/Reading/Tests.antt =====
-- Requests for one paste, and the theorems at concrete inputs.
use caspaste.Prelude.{
  ◌≤◌, ◌≡◌, refl, true, false, none, some, List, [], ◌∷◌, text_eq, codes, arith, has_prefix,
  replace_from, count_from,
}
use caspaste.Prelude.Int.{pos}
use caspaste.Prelude.Table.{select_row, affected, delete}
use caspaste.Prelude.Base64.{base64}
use caspaste.Prelude.Numbers.{atoi, trim_space}
use caspaste.Prelude.Strings.{to_lower, equal_fold, occurs, runes_from, is_invalid, more_bytes}
use caspaste.RateLimit.{new_rate_limit_system, new_rate_limit, check_and_use_all, check_and_use}
use caspaste.Validation.Bools.{is_truthy}
use caspaste.Storage
use caspaste.Storage.{Db, paste_get, get_row, paste_delete, paste_delete_if_one_use}
use caspaste.Storage.Rows.{Paste, has_id}
use caspaste.Storage.Expiry.{UniqueIds}
use caspaste.Form.Request.{Values, Upload, Settings, ok}
use caspaste.Form.Upload.{with_file, sanitize_filename}
use caspaste.Form.Checks.{
  read_paste, clean_title, check_sizes, line_ends, check_syntax, expiration, one_use_value,
  check_author, check_url, check_original,
}
use caspaste.Form.Handler.{paste_from, check_paste}
use caspaste.Reading.{
  Route, api, raw, page, hastebin, Reader, arrived, served, refused, storage, World, Server,
  get_paste, step,
}
use caspaste.Reading.Races.{Turn, run, step_at, served_count, run-served_once}
use caspaste.Reading.Alone.{Works, get_paste-burns}
use caspaste.Reading.Content.{raw_response, download_response, raw_response-paste_from}
use caspaste.Reading.Edits.{edit_paste, redirect_to, edit_paste_lem}

abbrev paste : Paste
paste = record {
  id = codes "once";
  title = codes "t";
  body = codes "text";
  create_time = 5;
  delete_time = pos 0;
  one_use = true;
  syntax = codes "plaintext";
  author = [];
  author_email = [];
  author_url = [];
  is_file = false;
  file_name = [];
  mime_type = [];
  is_editable = true;
  is_private = false;
  is_url = false;
  original_url = [];
}

abbrev db : Db
db = record { pool = paste ∷ []; backup_pool = none }

unique : UniqueIds (paste ∷ [])
unfolding affected
unique id = ground arith

abbrev reader : Route → Reader
reader route = record { route = route; id = codes "once"; phase = arrived }

abbrev turns : List Turn
turns =
    record { index = 0; now = 9; primary = none; backup = none }
    ∷ record { index = 1; now = 9; primary = none; backup = none }
    ∷ record { index = 1; now = 9; primary = none; backup = none }
    ∷ record { index = 0; now = 9; primary = none; backup = none }
    ∷ []

abbrev readers : List Reader
readers = reader api ∷ reader (page true) ∷ []

-- Both find the paste; the second deletes it first and shows it.
run-turns : served_count (codes "once") (run turns db readers).1 ≡ 1
unfolding run step_at step served_count paste_get get_row paste_delete paste_delete_if_one_use
    select_row affected delete text_eq
run-turns = refl

-- Where the error of the deletion is dropped, both show it.
run-hastebin :
    served_count (codes "once") (run turns db (reader hastebin ∷ reader hastebin ∷ [])).1 ≡ 2
unfolding run step_at step served_count paste_get get_row paste_delete select_row affected text_eq
run-hastebin = refl

run-served_once_example : served_count (codes "once") (run turns db readers).1 ≤ 1
unfolding select_row text_eq served_count
run-served_once_example =
    run-served_once turns db readers (codes "once") paste unique refl refl refl refl

abbrev world : World
world = record {
  now5 = 1000;
  now15 = 1000;
  now60 = 1000;
  now = 1000;
  get₁ = none;
  get₂ = none;
  write₁ = none;
  write₂ = none;
}

abbrev works : Works world
works = record { get₁ = refl; get₂ = refl; write₁ = refl; write₂ = refl }

abbrev server : Server
unfolding new_rate_limit_system
server = record { limits = new_rate_limit_system 2 5 9; db = db }

get_paste-burns_example :
    ((get_paste raw world server (codes "10.0.0.1") (codes "once")).1 ≡ served paste)
    × (select_row
          (has_id (codes "once"))
          (get_paste raw world server (codes "10.0.0.1") (codes "once")).0.db.pool
        ≡ none)
    × ((get_paste api world
          (get_paste raw world server (codes "10.0.0.1") (codes "once")).0
          (codes "10.0.0.1")
          (codes "once")).1
        ≡ refused (storage Storage.not_found_id))
unfolding select_row affected text_eq get_paste step paste_get get_row paste_delete
    check_and_use_all check_and_use new_rate_limit new_rate_limit_system
get_paste-burns_example =
    get_paste-burns raw api world world server (codes "10.0.0.1") (codes "10.0.0.1") (codes "once")
      paste refl works works refl refl refl (omega arith) refl refl refl

abbrev settings : Settings
settings = record {
  title_max_len = pos 20;
  body_max_len = pos 100;
  max_life_time = pos 3600;
  lexer_names = codes "plaintext" ∷ [];
}

abbrev no_values : Values
no_values key = []

abbrev upload : Upload
upload = record {
  filename = codes "a.bin";
  content_type = codes "image/png";
  content = some (0 ∷ 255 ∷ 10 ∷ 13 ∷ []);
}

abbrev uploaded : Paste
uploaded = record {
  id = [];
  title = [];
  body = codes "AP8KDQ==";
  create_time = 0;
  delete_time = pos 0;
  one_use = false;
  syntax = codes "plaintext";
  author = [];
  author_email = [];
  author_url = [];
  is_file = true;
  file_name = codes "a.bin";
  mime_type = codes "image/png";
  is_editable = false;
  is_private = false;
  is_url = false;
  original_url = [];
}

uploaded_lem : paste_from settings 1000 no_values (some upload) ≡ ok uploaded
unfolding paste_from with_file check_paste read_paste clean_title check_sizes line_ends check_syntax
    expiration one_use_value check_author check_url check_original to_lower trim_space equal_fold
    occurs has_prefix atoi runes_from replace_from count_from is_truthy text_eq sanitize_filename
    base64 is_invalid more_bytes
uploaded_lem = refl

raw_response-paste_from_example :
    ((raw_response uploaded).0 ≡ 0 ∷ 255 ∷ 10 ∷ 13 ∷ [])
    × ((download_response (λ s. none) uploaded).0 ≡ 0 ∷ 255 ∷ 10 ∷ 13 ∷ [])
raw_response-paste_from_example =
    raw_response-paste_from settings 1000 no_values upload (0 ∷ 255 ∷ 10 ∷ 13 ∷ []) uploaded
      (λ s. none) uploaded_lem refl (omega arith, (omega arith, (omega arith, (omega arith, tt))))

edit_paste_lem_example :
    (select_row (has_id (codes "once")) (edit_paste world db (codes "once") (codes "new") []).0.pool
      ≡ some (record paste { title = codes "new" }))
    × ((edit_paste world db (codes "once") (codes "new") []).1 ≡ redirect_to (codes "/once"))
unfolding select_row text_eq
edit_paste_lem_example =
    edit_paste_lem world db (codes "once") (codes "once") (codes "new") [] paste works refl refl
