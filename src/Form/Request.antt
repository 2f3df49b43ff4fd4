-- ===== src/Form/Request.antt =====
-- Requests as decoded, settings, and errors.
use caspaste.Prelude.{
  ℕ, ◌+◌, ◌/◌, ◌%◌, ltb, ◌==◌, zero, suc, Bool, true, false, if◌then◌else◌, Option, none, some,
  List, [], ◌∷◌, Text, text_eq, codes,
}
use caspaste.Prelude.Int.{ℤ, pos, negsuc}
use caspaste.Storage

-- Values of a form by name; a missing value is empty.
abbrev pub Values : Type 0
Values = Text → Text

-- `expiration` is a positive `int64`, or absent.
pub record JsonPaste : Type 0 where
  pub title : Text
  pub body : Text
  pub syntax : Text
  pub expiration : ℤ
  pub one_use : Bool
  pub author : Text
  pub author_email : Text
  pub author_url : Text
  pub editable : Bool
  pub private : Bool
  pub is_url : Bool
  pub original_url : Text
  pub line_end : Text

-- An uploaded file; `none` for its content is an error of `io.ReadAll`.
pub record Upload : Type 0 where
  pub filename : Text
  pub content_type : Text
  pub content : Option Text

-- `json none` is a body that does not decode; `form none` is an error of `ParseForm`.
pub data Payload : Type 0 where
  json : Option JsonPaste → Payload
  form : Option Values → Option Upload → Payload

pub record Request : Type 0 where
  pub is_post : Bool
  pub client : Text
  pub payload : Payload

pub record Settings : Type 0 where
  pub title_max_len : ℤ
  pub body_max_len : ℤ
  pub max_life_time : ℤ
  pub lexer_names : List Text

pub data Error : Type 0 where
  method_not_allowed bad_request payload_too_large : Error
  too_many_requests : ℕ → Error
  parse_failed read_failed : Error
  storage : Storage.Error → Error

pub data Result {ℓ} (A : Type ℓ) : Type ℓ where
  ok : A → Result A
  err : Error → Result A

-- An early return with an error, if the test holds.
abbrev pub refuse_if : Bool → Error → Result (Unit {0})
refuse_if true e = err e
refuse_if false e = ok tt

-- An error ends the chain, and is what the handler returns.
infixl 5 ◌>>=◌
abbrev pub ◌>>=◌ {ℓ κ} : {A : Type ℓ} {B : Type κ} → Result A → (A → Result B) → Result B
err e >>= next = err e
ok value >>= next = next value

-- A check that gives nothing but its success.
infixl 5 ◌>>◌
abbrev pub ◌>>◌ {ℓ} : {B : Type ℓ} → Result (Unit {0}) → Result B → Result B
test >> rest = test >>= λ done. rest

-- The digits of a number below 10 ^ fuel, before `acc`.
unfoldable pub digits : ℕ → ℕ → Text → Text
digits zero n acc = acc
digits (suc fuel) n acc =
    let rest = digits fuel (n / 10) ((b'0' + n % 10) ∷ acc) in
    if ltb n 10 then (b'0' + n) ∷ acc else rest

-- `strconv.FormatInt` of a positive `int64`, which has at most 19 digits.
unfoldable pub format_int : ℕ → Text
unfolding digits
format_int n = digits 20 n []

abbrev flag : Bool → Text
flag true = codes "true"
flag false = []

abbrev expiration_value : ℤ → Text
expiration_value (negsuc n) = []
expiration_value (pos n) = if n == 0 then [] else format_int n

-- The values that a JSON body sets.
unfoldable pub json_values : JsonPaste → Values
unfolding text_eq
json_values j key =
    if text_eq key (codes "title")
    then j.title
    else if text_eq key (codes "body")
    then j.body
    else if text_eq key (codes "syntax")
    then j.syntax
    else if text_eq key (codes "author")
    then j.author
    else if text_eq key (codes "authorEmail")
    then j.author_email
    else if text_eq key (codes "authorURL")
    then j.author_url
    else if text_eq key (codes "originalURL")
    then j.original_url
    else if text_eq key (codes "lineEnd")
    then j.line_end
    else if text_eq key (codes "expiration")
    then expiration_value j.expiration
    else if text_eq key (codes "oneUse")
    then flag j.one_use
    else if text_eq key (codes "editable")
    then flag j.editable
    else if text_eq key (codes "private")
    then flag j.private
    else if text_eq key (codes "url")
    then flag j.is_url
    else []

-- The values, and the file if there is one; a JSON body has none.
unfoldable pub decode : Payload → Result (Values × Option Upload)
decode (json none) = err bad_request
decode (json (some j)) = ok (json_values j, none)
decode (form none file) = err parse_failed
decode (form (some values) file) = ok (values, file)
