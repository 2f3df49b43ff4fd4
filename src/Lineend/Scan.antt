-- ===== src/Lineend/Scan.antt =====
-- `strings.Count` and `strings.Replace` at the patterns of lineend.go: one byte, and CR LF.
use caspaste.Prelude.{
  ℕ, ◌+◌, ◌≤◌, ◌≡◌, refl, [], ◌∷◌, ◌++◌, arith, ◌==◌, if◌then◌else◌, Text, has_prefix, count_from,
  replace_from, append_assoc,
}

abbrev pub count_byte : ℕ → Text → ℕ
count_byte b [] = 0
count_byte b (c ∷ t) = (if b == c then 1 else 0) + count_byte b t

abbrev pub replace_byte : ℕ → Text → Text → Text
replace_byte b new [] = []
replace_byte b new (c ∷ t) = (if b == c then new else c ∷ []) ++ replace_byte b new t

pub count_from-byte : (b : ℕ) (t : Text) → count_from 0 (b ∷ []) t ≡ count_byte b t
unfolding count_from
count_from-byte b [] = refl
count_from-byte b (c ∷ t) = ground (arith, count_from-byte b t)

pub replace_from-byte :
    (b : ℕ) (new t : Text) → replace_from 0 (b ∷ []) new t ≡ replace_byte b new t
unfolding replace_from
replace_from-byte b new [] = refl
replace_from-byte b new (c ∷ t) = ground (arith, replace_from-byte b new t)

pub count_byte-append :
    (b : ℕ) (s t : Text) → count_byte b (s ++ t) ≡ count_byte b s + count_byte b t
count_byte-append b [] t = omega arith
count_byte-append b (c ∷ s) t = omega (arith, count_byte-append b s t)

pub replace_byte-append :
    (b : ℕ) (new s t : Text)
    → replace_byte b new (s ++ t) ≡ replace_byte b new s ++ replace_byte b new t
replace_byte-append b new [] t = refl
replace_byte-append b new (c ∷ s) t = rw (replace_byte-append b new s t, append_assoc)

-- A text without the byte stays as it is.
pub replace_byte_none : (b : ℕ) (new t : Text) → count_byte b t ≡ 0 → replace_byte b new t ≡ t
replace_byte_none b new [] h = refl
replace_byte_none b new (c ∷ t) h = ground (arith, replace_byte_none b new t)

-- Without the byte among the new ones, none is left.
pub count_byte-replace_byte :
    (b : ℕ) (new t : Text) → count_byte b new ≡ 0 → count_byte b (replace_byte b new t) ≡ 0
count_byte-replace_byte b new [] h = refl
count_byte-replace_byte b new (c ∷ t) h = ground (
  arith,
  count_byte-append b (if b == c then new else c ∷ []) (replace_byte b new t),
  count_byte-replace_byte b new t,
)

abbrev pub count_dos : ℕ → Text → ℕ
count_dos k t = count_from k (b'\r' ∷ b'\n' ∷ []) t

abbrev starts_unix : Text → ℕ
starts_unix [] = 0
starts_unix (c ∷ t) = if c == b'\n' then 1 else 0

-- Each CR LF holds a CR and a LF, also where a match is begun.
record Within (t : Text) : Type 0 where
  fresh_cr : count_dos 0 t ≤ count_byte b'\r' t
  fresh_lf : count_dos 0 t ≤ count_byte b'\n' t
  begun_cr : count_dos 1 t ≤ count_byte b'\r' t
  begun_lf : count_dos 1 t + starts_unix t ≤ count_byte b'\n' t

has_prefix-unix : (t : Text) → (if has_prefix (b'\n' ∷ []) t then 1 else 0) ≡ starts_unix t
unfolding has_prefix
has_prefix-unix [] = refl
has_prefix-unix (c ∷ t) = ground arith

count_dos-Within : (t : Text) → Within t
unfolding count_from
count_dos-Within [] = omega arith
count_dos-Within (c ∷ t) = ground (arith, count_dos-Within t, has_prefix-unix t)

pub count_dos-le :
    (t : Text) → (count_dos 0 t ≤ count_byte b'\r' t) × (count_dos 0 t ≤ count_byte b'\n' t)
count_dos-le t = ((count_dos-Within t).fresh_cr, (count_dos-Within t).fresh_lf)

-- A segment without CR takes no part in a match.
pub count_dos-append : (s t : Text) → count_byte b'\r' s ≡ 0 → count_dos 0 (s ++ t) ≡ count_dos 0 t
unfolding count_from
count_dos-append [] t h = refl
count_dos-append (c ∷ s) t h = ground (arith, count_dos-append s t)

pub count_dos_hit : (t : Text) → count_dos 0 (b'\r' ∷ b'\n' ∷ t) ≡ count_dos 0 t + 1
unfolding count_from
count_dos_hit t = omega arith
