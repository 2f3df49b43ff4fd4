-- ===== src/Storage/Ids.antt =====
-- The ids that `genTokenCrypto` makes.
use caspaste.Prelude.{
  ℕ, zero, suc, ◌+◌, ◌<◌, ◌≡◌, refl, Bool, true, ◌||◌, ◌&&◌, leb, Option, none, some, List, [], ◌∷◌,
  ◌++◌, Text, length, length-append, All, arith, holds_below, holds_below_sound,
}
use caspaste.Storage.{ok, chars, char_at, gen_loop, gen_token_crypto}

within : ℕ → ℕ → ℕ → Bool
within lo hi c = leb lo c && leb c hi

-- A letter or a digit of ASCII.
unfoldable pub is_alnum : ℕ → Bool
unfolding within
is_alnum c = within b'a' b'z' c || within b'A' b'Z' c || within b'0' b'9' c

-- The draws that `rand.Int` may give below 62.
abbrev pub IsDraw : Option ℕ → Type 0
IsDraw none = Unit
IsDraw (some i) = i < 62

char_at-is_alnum : (i : ℕ) → i < 62 → is_alnum (char_at i chars) ≡ true
unfolding is_alnum holds_below
char_at-is_alnum i h = holds_below_sound 62 (λ n. is_alnum (char_at n chars)) i refl h

abbrev pub AllAlnum : Text → Type 0
AllAlnum = All (λ c. is_alnum c ≡ true)

AllAlnum-append : (s : Text) (c : ℕ) → AllAlnum s → is_alnum c ≡ true → AllAlnum (s ++ c ∷ [])
AllAlnum-append [] c h k = (k, tt)
AllAlnum-append (x ∷ s) c h k = (h.0, AllAlnum-append s c h.1 k)

gen_done :
    (token t : Text) → AllAlnum token → ok token ≡ ok t → (length t ≡ length token + 0) × AllAlnum t
gen_done token t h e = let same : token ≡ t = cc in rw (← same) (omega arith, h)

gen_loop_lem :
    (n : ℕ) (draws : List (Option ℕ)) (token t : Text)
    → All IsDraw draws
    → AllAlnum token
    → gen_loop n draws token ≡ ok t
    → (length t ≡ length token + n) × AllAlnum t
unfolding gen_loop
gen_loop_lem zero draws token t ds h e = gen_done token t h e
gen_loop_lem (suc n) [] token t ds h e = cc
gen_loop_lem (suc n) (none ∷ draws) token t ds h e = cc
gen_loop_lem (suc n) (some i ∷ draws) token t ds h e =
    let (len, alnum) =
      gen_loop_lem n draws (token ++ char_at i chars ∷ []) t ds.1
        (AllAlnum-append token (char_at i chars) h (char_at-is_alnum i ds.0)) e in
    (omega (arith, len, length-append token (char_at i chars ∷ [])), alnum)

-- An id has the length that was asked for and holds only letters and digits.
pub gen_token_crypto_lem :
    (n : ℕ) (draws : List (Option ℕ)) (t : Text)
    → All IsDraw draws
    → gen_token_crypto n draws ≡ ok t
    → (length t ≡ n) × AllAlnum t
unfolding gen_token_crypto
gen_token_crypto_lem n draws t ds e =
    let (len, alnum) = gen_loop_lem n draws [] t ds tt e in (omega (arith, len), alnum)
