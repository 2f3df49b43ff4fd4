-- ===== src/Storage/Rows.antt =====
-- A row of the table `pastes`, and the conditions of the queries.
use caspaste.Prelude.{ℕ, Bool, false, ◌&&◌, ◌||◌, not, ◌==◌, Text, text_eq}
use caspaste.Prelude.Int.{ℤ, pos, negsuc, ltz}

pub record Paste : Type 0 where
  pub id : Text
  pub title : Text
  pub body : Text
  pub create_time : ℕ
  pub delete_time : ℤ
  pub one_use : Bool
  pub syntax : Text
  pub author : Text
  pub author_email : Text
  pub author_url : Text
  pub is_file : Bool
  pub file_name : Text
  pub mime_type : Text
  pub is_editable : Bool
  pub is_private : Bool
  pub is_url : Bool
  pub original_url : Text

-- `id = $1`.
abbrev pub has_id : Text → Paste → Bool
has_id id p = text_eq p.id id

-- `(delete_time < $1) AND (delete_time > 0)`.
abbrev pub is_expired : ℕ → Paste → Bool
is_expired now p = ltz p.delete_time (pos now) && ltz (pos 0) p.delete_time

abbrev pub is_zero : ℤ → Bool
is_zero (pos n) = n == 0
is_zero (negsuc n) = false

-- `(delete_time > $1 OR delete_time = 0) AND is_private = FALSE`.
abbrev pub is_listed : ℕ → Paste → Bool
is_listed now p = (ltz (pos now) p.delete_time || is_zero p.delete_time) && not p.is_private
