-- ===== src/Prelude/Texts.antt =====
-- Go strings as lists of bytes: equality, literals, and the searches of package strings.
use Prim.Native.Nat.{ℕ, zero, suc, ◌+◌, pred}
use Prim.Native.Char.{code}
use Prim.Native.String.{String}
use mathlib.Core.Path.{◌≡◌, refl}
use mathlib.Core.Logic.{◌↔◌}
use mathlib.Core.Bool.{Bool, true, false, ◌&&◌}
use mathlib.Core.List.{List, [], ◌∷◌, ◌++◌}
use native.Mathlib.Omega.{arith}
use caspaste.Prelude.Tests.{◌==◌, if◌then◌else◌}
use caspaste.Prelude.Lists.{length}

abbrev pub Text : Type 0
Text = List ℕ

-- The code points of a literal, which are its bytes where it is ASCII.
abbrev pub codes : String → Text
codes String.[] = []
codes (String.◌∷◌ c s) = code c ∷ codes s

unfoldable pub text_eq : Text → Text → Bool
text_eq [] [] = true
text_eq (x ∷ xs) (y ∷ ys) = x == y && text_eq xs ys
text_eq _ _ = false

pub text_eq_iff : (a b : Text) → (text_eq a b ≡ true) ↔ (a ≡ b)
unfolding text_eq
text_eq_iff (x ∷ a) (y ∷ b) = ground (arith, text_eq_iff a b)
text_eq_iff _ _ = ground arith

pub text_eq_refl : (a : Text) → text_eq a a ≡ true
text_eq_refl a = (text_eq_iff a a).1 refl

-- `strings.HasPrefix`, its arguments swapped.
unfoldable pub has_prefix : Text → Text → Bool
has_prefix [] t = true
has_prefix (x ∷ p) [] = false
has_prefix (x ∷ p) (y ∷ t) = x == y && has_prefix p t

-- `strings.Count(t, sub)` for a `sub` that is not empty. The first argument is the number of bytes
-- left of a match that has been counted.
unfoldable pub count_from : ℕ → Text → Text → ℕ
unfolding has_prefix
count_from k sub [] = 0
count_from (suc k) sub (c ∷ t) = count_from k sub t
count_from zero sub (c ∷ t) =
    let here = has_prefix sub (c ∷ t) in
    (if here then 1 else 0) + count_from (if here then pred (length sub) else 0) sub t

-- `strings.Replace(t, old, new, -1)` for an `old` that is not empty.
unfoldable pub replace_from : ℕ → Text → Text → Text → Text
unfolding has_prefix
replace_from k old new [] = []
replace_from (suc k) old new (c ∷ t) = replace_from k old new t
replace_from zero old new (c ∷ t) =
    let here = has_prefix old (c ∷ t) in
    (if here then new else c ∷ []) ++ replace_from (if here then pred (length old) else 0) old new t

abbrev pub count : Text → Text → ℕ
count t sub = count_from 0 sub t

abbrev pub replace_all : Text → Text → Text → Text
replace_all t old new = replace_from 0 old new t
