-- ===== src/Api/Compat.antt =====
-- src/apiv1/compat.go: the interfaces of other services, which make a paste of what their clients
-- send. The answers' encoding is left out.
mod Pastes
mod Handler
mod Times
mod Kept
mod Stored
mod Tests
use caspaste.Prelude.{
  ℕ, ◌+◌, ◌-◌, ◌*◌, ltb, leb, ◌&&◌, ◌||◌, Bool, true, false, if◌then◌else◌, Option, none, some,
  List, [], ◌∷◌, map, Text, text_eq, codes, has_prefix,
}
use caspaste.Prelude.Int.{ℤ, pos}
use caspaste.Prelude.Numbers.{atoi}
use caspaste.Prelude.Strings.{to_lower}
use caspaste.Validation.Bools.{is_truthy}
use caspaste.Form.Request.{Values, Upload}
use caspaste.Form.Checks.{int64, find_lexer}

pub data Service : Type 0 where
  sprunge ix pastebin stikked microbin lenpaste termbin hastebin generic : Service

-- The `switch` of `handleCompat`.
unfoldable pub route : Text → Option Service
unfolding text_eq has_prefix
route path =
    if text_eq path (codes "/sprunge") || text_eq path (codes "/sprunge/")
    then some sprunge
    else if text_eq path (codes "/ix") || text_eq path (codes "/ix/")
    then some ix
    else if text_eq path (codes "/api/api_post.php")
    then some pastebin
    else if text_eq path (codes "/api/create")
    then some stikked
    else if text_eq path (codes "/upload") || text_eq path (codes "/p")
    then some microbin
    else if text_eq path (codes "/api/v1/new")
    then some lenpaste
    else if text_eq path (codes "/termbin") || text_eq path (codes "/nc")
    then some termbin
    else if text_eq path (codes "/documents") || has_prefix (codes "/documents/") path
    then some hastebin
    else if text_eq path (codes "/compat") || text_eq path (codes "/paste")
    then some generic
    else none

-- A request as net/http decodes it: whether `ParseForm` succeeds, what `PostFormValue` gives, the
-- file named `file`, and the body, `none` for an error of `io.ReadAll`.
pub record CompatRequest : Type 0 where
  pub path : Text
  pub method : Text
  pub client : Text
  pub form_parses : Bool
  pub values : Values
  pub file : Option Upload
  pub raw : Option Text

abbrev pub or_next : Text → Text → Text
or_next [] next = next
or_next (c ∷ t) next = c ∷ t

-- The first of the names whose value is not empty.
unfoldable pub first_value : Values → List Text → Text
first_value v [] = []
first_value v (name ∷ names) = or_next (v name) (first_value v names)

unfoldable pub any_truthy : Values → List Text → Bool
unfolding is_truthy
any_truthy v [] = false
any_truthy v (name ∷ names) = is_truthy (v name) || any_truthy v names

abbrev pub aliases : List (Text × Text)
aliases =
    (codes "plain", codes "plaintext")
    ∷ (codes "txt", codes "plaintext")
    ∷ (codes "text", codes "plaintext")
    ∷ (codes "py", codes "python")
    ∷ (codes "python3", codes "python")
    ∷ (codes "js", codes "javascript")
    ∷ (codes "ts", codes "typescript")
    ∷ (codes "rb", codes "ruby")
    ∷ (codes "sh", codes "bash")
    ∷ (codes "shell", codes "bash")
    ∷ (codes "zsh", codes "bash")
    ∷ (codes "c++", codes "cpp")
    ∷ (codes "cplusplus", codes "cpp")
    ∷ (codes "cs", codes "csharp")
    ∷ (codes "c#", codes "csharp")
    ∷ (codes "golang", codes "go")
    ∷ (codes "yml", codes "yaml")
    ∷ (codes "md", codes "markdown")
    ∷ (codes "pl", codes "perl")
    ∷ (codes "rs", codes "rust")
    ∷ (codes "kt", codes "kotlin")
    ∷ (codes "swift", codes "swift")
    ∷ (codes "dockerfile", codes "docker")
    ∷ (codes "makefile", codes "make")
    ∷ []

unfoldable pub alias_of : Text → List (Text × Text) → Option Text
unfolding text_eq
alias_of syntax [] = none
alias_of syntax ((short, full) ∷ rest) =
    if text_eq syntax short then some full else alias_of syntax rest

abbrev pub or_plain : Option Text → Text
or_plain none = codes "plaintext"
or_plain (some name) = name

-- The lexer of an alias, if there is one.
abbrev pub aliased : List Text → Option Text → Text
aliased lexers none = codes "plaintext"
aliased lexers (some alias) = or_plain (find_lexer alias lexers)

abbrev pub lexer_or_alias : List Text → Text → Option Text → Text
lexer_or_alias lexers syntax (some name) = name
lexer_or_alias lexers syntax none = aliased lexers (alias_of (to_lower syntax) aliases)

unfoldable pub normalize_syntax : List Text → Text → Text
unfolding find_lexer alias_of to_lower
normalize_syntax lexers [] = codes "plaintext"
normalize_syntax lexers (c ∷ t) = lexer_or_alias lexers (c ∷ t) (find_lexer (c ∷ t) lexers)

abbrev upper : ℕ → ℕ
upper c = if leb b'a' c && leb c b'z' then c - 32 else c

unfoldable pub parse_pastebin_expire : Text → ℕ
unfolding text_eq
parse_pastebin_expire t =
    let s = map upper t in
    if text_eq s (codes "10M")
    then 10 * 60
    else if text_eq s (codes "1H")
    then 60 * 60
    else if text_eq s (codes "1D")
    then 24 * 60 * 60
    else if text_eq s (codes "1W")
    then 7 * 24 * 60 * 60
    else if text_eq s (codes "2W")
    then 14 * 24 * 60 * 60
    else if text_eq s (codes "1M")
    then 30 * 24 * 60 * 60
    else if text_eq s (codes "6M")
    then 180 * 24 * 60 * 60
    else if text_eq s (codes "1Y")
    then 365 * 24 * 60 * 60
    else 0

-- The time of deletion, 0 for none, for a life in seconds.
unfoldable pub delete_after : ℕ → ℤ → ℤ
delete_after now (pos n) = if ltb 0 n then int64 (now + n) else pos 0
delete_after now _ = pos 0

unfoldable pub after_seconds : ℕ → Option ℤ → ℤ
unfolding delete_after
after_seconds now none = pos 0
after_seconds now (some n) = delete_after now n

-- `strconv.ParseInt` reads what `Atoi` does; the empty text is not read.
unfoldable pub expire_in : ℕ → Text → ℤ
unfolding after_seconds
expire_in now [] = pos 0
expire_in now (c ∷ t) = after_seconds now (atoi (c ∷ t))
