-- ===== src/Password/Entries.antt =====
-- The file: `LoadFile` and `writePasswordFile`.
use caspaste.Prelude.{
  ℕ, ◌+◌, Bool, true, false, if◌then◌else◌, Option, none, some, List, [], ◌∷◌, ◌++◌, Text, text_eq,
  split_on,
}

-- A map of users to hashes, in the order in which Go ranges over it.
abbrev pub Entries : Type 0
Entries = List (Text × Text)

pub data Error : Type 0 where
  not_read not_written no_randomness : Error
  bad_line : ℕ → Error
  overriding : Text → ℕ → Error

pub data Result {ℓ} (A : Type ℓ) : Type ℓ where
  ok : A → Result A
  err : Error → Result A

unfoldable pub lookup : Text → Entries → Option Text
lookup user [] = none
lookup user ((u, h) ∷ d) = if text_eq u user then some h else lookup user d

-- `data[user] = hash`.
unfoldable pub insert : Text → Text → Entries → Entries
insert user hash [] = (user, hash) ∷ []
insert user hash ((u, h) ∷ d) =
    if text_eq u user then (u, hash) ∷ d else (u, h) ∷ insert user hash d

abbrev pub is_some : Option Text → Bool
is_some none = false
is_some (some h) = true

-- What the parts of line `i` add to the data.
unfoldable pub add_line : ℕ → List Text → Entries → Result Entries
unfolding lookup
add_line i (user ∷ pass ∷ []) d =
    if is_some (lookup user d) then err (overriding user i) else ok (d ++ (user, pass) ∷ [])
add_line i _ d = err (bad_line i)

-- The loop over the lines, of which the first has the number `i`.
unfoldable pub load_lines : ℕ → List Text → Entries → Result Entries
load_lines i [] d = ok d
load_lines i ([] ∷ ls) d = load_lines (i + 1) ls d
load_lines i ((c ∷ l) ∷ ls) d = elim (add_line i (split_on b':' (c ∷ l)) d) [
  | ok d' ↦ load_lines (i + 1) ls d'
  | err e ↦ err e
]

-- `none` where the file could not be opened or read.
unfoldable pub load_file : Option Text → Result Entries
load_file none = err not_read
load_file (some text) = load_lines 0 (split_on b'\n' text) []

-- What `writePasswordFile` writes.
unfoldable pub content : Entries → Text
content [] = []
content ((user, hash) ∷ d) = user ++ (b':' ∷ hash ++ (b'\n' ∷ content d))
