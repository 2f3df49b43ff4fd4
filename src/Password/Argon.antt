-- ===== src/Password/Argon.antt =====
-- Hashes of passwords: `HashPassword` and `verifyArgon2Hash`. `argon2.IDKey` is the parameter
-- `id_key`, of a password, a salt, time, memory, threads and the length of the key; `none` is its
-- panic on a time or a number of threads that is 0.
use caspaste.Prelude.{
  ℕ, ◌+◌, ◌*◌, ◌-◌, ◌^◌, ltb, leb, ◌==◌, ◌&&◌, Bool, false, if◌then◌else◌, Option, none, some, List,
  [], ◌∷◌, ◌++◌, Text, text_eq, codes, split_on, length, has_prefix, drop,
}
use caspaste.Prelude.Base64.{raw_base64, raw_decode}
use caspaste.Prelude.Numbers.{is_space}
use caspaste.Password.Entries.{Result, ok, err, no_randomness}

abbrev pub argon_time : ℕ
argon_time = 3

abbrev pub argon_memory : ℕ
argon_memory = 64 * 1024

abbrev pub argon_threads : ℕ
argon_threads = 4

abbrev pub argon_key_len : ℕ
argon_key_len = 32

abbrev pub IdKey : Type 0
IdKey = Text → Text → ℕ → ℕ → ℕ → ℕ → Option Text

-- The text before the salt, `$argon2id$v=%d$m=%d,t=%d,p=%d$` with the constants.
abbrev pub parameters : Text
parameters = codes "$argon2id$v=19$m=65536,t=3,p=4$"

-- How a call ends: with a value or with a panic.
pub data Run {ℓ} (A : Type ℓ) : Type ℓ where
  done : A → Run A
  panic : Run A

abbrev encoded : Text → Option Text → Run (Result Text)
encoded salt none = panic
encoded salt (some key) = done (ok (parameters ++ (raw_base64 salt ++ b'$' ∷ raw_base64 key)))

-- The salt is `none` where the source of random bytes fails.
unfoldable pub hash_password : IdKey → Option Text → Text → Run (Result Text)
hash_password id_key none password = done (err no_randomness)
hash_password id_key (some salt) password =
    encoded salt (id_key password salt argon_time argon_memory argon_threads argon_key_len)

-- `fmt.Sscanf`: a number and the rest of the text. White space before it is passed over.
unfoldable pub skip_space : Text → Text
skip_space [] = []
skip_space (c ∷ t) = let rest = skip_space t in if is_space c then rest else c ∷ t

abbrev pub is_digit : ℕ → Bool
is_digit c = leb b'0' c && leb c b'9'

unfoldable pub scan_digits : ℕ → Text → ℕ × Text
scan_digits n [] = (n, [])
scan_digits n (c ∷ t) =
    let rest = scan_digits (n * 10 + (c - b'0')) t in if is_digit c then rest else (n, c ∷ t)

abbrev fits : ℕ → ℕ × Text → Option (ℕ × Text)
fits limit (n, t) = if ltb n limit then some (n, t) else none

unfoldable pub unsigned : ℕ → Text → Option (ℕ × Text)
unfolding scan_digits
unsigned limit [] = none
unsigned limit (c ∷ t) = if is_digit c then fits limit (scan_digits 0 (c ∷ t)) else none

-- `%d` for an unsigned number below the limit.
unfoldable pub scan_unsigned : ℕ → Text → Option (ℕ × Text)
unfolding unsigned skip_space is_space
scan_unsigned limit t = unsigned limit (skip_space t)

unfoldable pub after_sign : Text → Option (ℕ × Text)
unfolding unsigned
after_sign [] = none
after_sign (c ∷ t) =
    if c == b'+'
    then unsigned (2 ^ 63) t
    else if c == b'-'
    then unsigned (2 ^ 63 + 1) t
    else unsigned (2 ^ 63) (c ∷ t)

-- `%d` for an `int`, of which only the success is used.
unfoldable pub scan_int : Text → Option (ℕ × Text)
unfolding after_sign skip_space is_space
scan_int t = after_sign (skip_space t)

-- A literal of the format.
unfoldable pub literal : Text → Text → Option Text
unfolding has_prefix
literal p t = if has_prefix p t then some (drop (length p) t) else none

infixl 5 ◌>>=◌
abbrev pub ◌>>=◌ {ℓ κ} : {A : Type ℓ} {B : Type κ} → Option A → (A → Option B) → Option B
none >>= f = none
some a >>= f = f a

-- `v=%d`.
unfoldable pub scan_version : Text → Option (ℕ × Text)
unfolding literal scan_int
scan_version t = do rest ← literal (codes "v=") t; scan_int rest

-- `m=%d,t=%d,p=%d`, two `uint32` and a `uint8`.
unfoldable pub scan_parameters : Text → Option (ℕ × ℕ × ℕ)
unfolding literal scan_unsigned
scan_parameters t = do
  t₁ ← literal (codes "m=") t
  (memory, t₂) ← scan_unsigned (2 ^ 32) t₁
  t₃ ← literal (codes ",t=") t₂
  (time, t₄) ← scan_unsigned (2 ^ 32) t₃
  t₅ ← literal (codes ",p=") t₄
  (threads, t₆) ← scan_unsigned (2 ^ 8) t₅
  some (memory, time, threads)

abbrev pub compared : Text → Option Text → Run Bool
compared expected none = panic
compared expected (some key) = done (text_eq key expected)

abbrev pub with_parts :
    IdKey → Text → Option (ℕ × Text) → Option (ℕ × ℕ × ℕ) → Option Text → Option Text → Run Bool
with_parts id_key password (some version) (some (memory, time, threads)) (some salt)
      (some expected) =
    compared expected (id_key password salt time memory threads (length expected))
with_parts id_key password _ _ _ _ = done false

unfoldable pub verify_parts : IdKey → Text → List Text → Run Bool
verify_parts id_key password (a ∷ b ∷ version ∷ parameters ∷ salt ∷ hash ∷ []) =
    with_parts id_key password (scan_version version) (scan_parameters parameters) (raw_decode salt)
      (raw_decode hash)
verify_parts id_key password _ = done false

unfoldable pub verify_argon2_hash : IdKey → Text → Text → Run Bool
unfolding verify_parts
verify_argon2_hash id_key encoded_hash password =
    verify_parts id_key password (split_on b'$' encoded_hash)
