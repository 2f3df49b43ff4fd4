-- ===== src/Secrets/Stored.antt =====
-- src/storage/secrets.go: the table of secrets.
use caspaste.Prelude.{
  ℕ, ◌+◌, ◌*◌, ltb, ◌&&◌, Bool, if◌then◌else◌, Option, none, some, List, [], ◌∷◌, ◌++◌, Text,
  text_eq, ◌==◌,
}
use caspaste.Prelude.Table.{Outcome, select_row, affected}
use caspaste.Totp.Recovery.{hex}
use caspaste.Web.Paths.{unhex}

pub record Secret : Type 0 where
  pub name : Text
  pub value : Text

abbrev pub has_name : Text → Secret → Bool
has_name name s = text_eq s.name name

pub data Error : Type 0 where
  invalid_hex no_randomness unique_violation : Error
  driver : ℕ → Error

pub data Result {ℓ} (A : Type ℓ) : Type ℓ where
  ok : A → Result A
  err : Error → Result A

abbrev prepend : ℕ → Option Text → Option Text
prepend c none = none
prepend c (some t) = some (c ∷ t)

-- `hex.DecodeString`.
unfoldable pub decode_hex : Text → Option Text
decode_hex [] = some []
decode_hex (c ∷ []) = none
decode_hex (c ∷ d ∷ t) =
    let rest = decode_hex t in
    if ltb (unhex c) 16 && ltb (unhex d) 16 then prepend (unhex c * 16 + unhex d) rest else none

abbrev pub decoded : Option Text → Result Text
decoded none = err invalid_hex
decoded (some raw) = ok raw

-- The name is the primary key.
abbrev insert_secret : Outcome → Secret → List Secret → List Secret × Option Error
insert_secret (some e) s rows = (rows, some (driver e))
insert_secret none s rows =
    if affected (has_name s.name) rows == 0
    then (rows ++ s ∷ [], none)
    else (rows, some unique_violation)

abbrev after_insert : Text → List Secret × Option Error → List Secret × Result Text
after_insert raw (rows, none) = (rows, ok raw)
after_insert raw (rows, some e) = (rows, err e)

abbrev pub generate : Outcome → Option Text → List Secret → Text → List Secret × Result Text
generate o none rows name = (rows, err no_randomness)
generate o (some raw) rows name =
    after_insert raw (insert_secret o (record { name = name; value = hex raw }) rows)

abbrev pub found :
    Outcome → Option Text → List Secret → Text → Option Secret → List Secret × Result Text
found o random rows name (some s) = (rows, decoded (decode_hex s.value))
found o random rows name none = generate o random rows name

-- What the two statements come to, and the 32 random bytes or the error of reading them.
unfoldable pub load_or_generate_secret :
    Outcome → Outcome → Option Text → List Secret → Text → List Secret × Result Text
unfolding hex decode_hex text_eq
load_or_generate_secret (some e) o random rows name = (rows, err (driver e))
load_or_generate_secret none o random rows name =
    found o random rows name (select_row (has_name name) rows)
