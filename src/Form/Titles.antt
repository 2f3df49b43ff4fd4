-- ===== src/Form/Titles.antt =====
-- What the replacements leave of a title and of a body, and what a sanitized file name holds.
use caspaste.Prelude.{
  ℕ, zero, suc, ◌≤◌, ◌≡◌, refl, ◌==◌, true, false, Bool-cases, inl, inr, [], ◌∷◌, ◌++◌, Text,
  length, take, All, arith, has_prefix, replace_from, replace_all, lacks,
}
use caspaste.Prelude.Strings.{more_bytes, is_invalid}
use caspaste.Form.Upload.{is_unsafe, written, safe_runes, sanitize_filename}
use caspaste.Form.Checks.{clean_title}

lacks-append : (s : ℕ) (a b : Text) → lacks s a ≡ true → lacks s b ≡ true → lacks s (a ++ b) ≡ true
lacks-append s [] b h k = k
lacks-append s (c ∷ a) b h k = ground (arith, lacks-append s a b)

-- A byte is gone once each of its places is replaced by a text without it.
replaced :
    (s : ℕ) (new t : Text) → lacks s new ≡ true → lacks s (replace_from 0 (s ∷ []) new t) ≡ true
unfolding replace_from has_prefix
replaced s new [] h = refl
replaced s new (c ∷ t) h = elim (Bool-cases (s == c)) [
  | inl e ↦ rw e (lacks-append s new _ h (replaced s new t h))
  | inr e ↦ rw e (ground (arith, replaced s new t h))
]

-- And one that was not there does not come back.
kept :
    (s : ℕ) (old : ℕ) (new t : Text)
    → lacks s new ≡ true
    → lacks s t ≡ true
    → lacks s (replace_from 0 (old ∷ []) new t) ≡ true
unfolding replace_from has_prefix
kept s old new [] h k = refl
kept s old new (c ∷ t) h k = elim (Bool-cases (old == c)) [
  | inl e ↦ rw e (lacks-append s new _ h (kept s old new t h (ground arith)))
  | inr e ↦ rw e (ground (arith, kept s old new t h))
]

pub clean_title-lacks :
    (t : Text)
    → (lacks b'\n' (clean_title t) ≡ true)
      × (lacks b'\r' (clean_title t) ≡ true)
      × (lacks b'\t' (clean_title t) ≡ true)
unfolding clean_title
clean_title-lacks t =
    let a = replace_all t (b'\n' ∷ []) [] in
    let b = replace_all a (b'\r' ∷ []) [] in
    (
      kept b'\n' b'\t' (b' ' ∷ []) b refl (kept b'\n' b'\r' [] a refl (replaced b'\n' [] t refl)),
      kept b'\r' b'\t' (b' ' ∷ []) b refl (replaced b'\r' [] a refl),
      replaced b'\t' (b' ' ∷ []) b refl,
    )

-- No control character, no delete and no path separator.
abbrev pub IsSafe : ℕ → Type 0
IsSafe c = is_unsafe c ≡ false

written-All : (c : ℕ) (t : Text) → All IsSafe (written c t)
unfolding is_invalid
written-All c t = elim (Bool-cases (is_unsafe c)) [
  | inl bad ↦ rw bad tt
  | inr good ↦ rw good (elim (Bool-cases (is_invalid c t)) [
    | inl e ↦ rw e (refl, (refl, (refl, tt)))
    | inr e ↦ rw e (good, tt)
  ])
]

-- The next `k` bytes are not ASCII.
abbrev Follow : ℕ → Text → Type 0
Follow zero t = Unit {0}
Follow (suc k) [] = Unit {0}
Follow (suc k) (c ∷ t) = (0x80 ≤ c) × Follow k t

more_bytes-Follow : (b : ℕ) (t : Text) → Follow (more_bytes b t) t
unfolding more_bytes
more_bytes-Follow b [] = ground arith
more_bytes-Follow b (c ∷ []) = ground arith
more_bytes-Follow b (c ∷ d ∷ []) = ground arith
more_bytes-Follow b (c ∷ d ∷ e ∷ t) = ground arith

All-append : (a b : Text) → All IsSafe a → All IsSafe b → All IsSafe (a ++ b)
All-append [] b h k = k
All-append (c ∷ a) b h k = (h.0, All-append a b h.1 k)

safe_runes-All : (k : ℕ) (t : Text) → Follow k t → All IsSafe (safe_runes k t)
unfolding safe_runes
safe_runes-All zero [] f = tt
safe_runes-All (suc k) [] f = tt
safe_runes-All (suc k) (c ∷ t) f = (ground arith, safe_runes-All k t f.1)
safe_runes-All zero (c ∷ t) f =
    All-append (written c t) _ (written-All c t)
      (safe_runes-All (more_bytes c t) t (more_bytes-Follow c t))

All-take : (n : ℕ) (t : Text) → All IsSafe t → All IsSafe (take n t)
All-take zero t h = tt
All-take (suc n) [] h = tt
All-take (suc n) (c ∷ t) h = (h.0, All-take n t h.1)

length-take-le : (n : ℕ) (t : Text) → length (take n t) ≤ n
length-take-le zero t = omega arith
length-take-le (suc n) [] = omega arith
length-take-le (suc n) (c ∷ t) = omega (arith, length-take-le n t)

pub sanitize_filename-IsSafe :
    (name : Text) → All IsSafe (sanitize_filename name) × (length (sanitize_filename name) ≤ 255)
unfolding sanitize_filename
sanitize_filename-IsSafe name = (
  All-take 255 (safe_runes 0 name) (safe_runes-All 0 name tt),
  length-take-le 255 (safe_runes 0 name),
)
