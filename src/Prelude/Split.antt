-- ===== src/Prelude/Split.antt =====
-- `strings.Split` at one byte and `strings.Join`.
use Prim.Native.Nat.{ℕ}
use mathlib.Core.Path.{◌≡◌, refl, ap, ◌∙◌}
use mathlib.Core.Bool.{Bool, true, false}
use mathlib.Core.List.{List, [], ◌∷◌, ◌++◌}
use native.Mathlib.Omega.{arith}
use caspaste.Prelude.Tests.{◌==◌, if◌then◌else◌}
use caspaste.Prelude.Lists.{All}
use caspaste.Prelude.Texts.{Text}

abbrev pub add_first : ℕ → List Text → List Text
add_first c [] = (c ∷ []) ∷ []
add_first c (w ∷ ws) = (c ∷ w) ∷ ws

unfoldable pub split_on : ℕ → Text → List Text
split_on sep [] = [] ∷ []
split_on sep (c ∷ t) = let rest = split_on sep t in if c == sep then [] ∷ rest else add_first c rest

unfoldable pub join_with : Text → List Text → Text
join_with sep [] = []
join_with sep (w ∷ []) = w
join_with sep (w ∷ v ∷ ws) = w ++ (sep ++ join_with sep (v ∷ ws))

-- No byte of the text is the separator.
abbrev pub lacks : ℕ → Text → Bool
lacks sep [] = true
lacks sep (c ∷ t) = if c == sep then false else lacks sep t

pub split_on-lacks : (sep : ℕ) (w : Text) → lacks sep w ≡ true → split_on sep w ≡ w ∷ []
unfolding split_on
split_on-lacks sep [] h = refl
split_on-lacks sep (c ∷ w) h = ground (arith, split_on-lacks sep w)

pub split_on-append :
    (sep : ℕ) (w t : Text) → lacks sep w ≡ true → split_on sep (w ++ sep ∷ t) ≡ w ∷ split_on sep t
unfolding split_on
split_on-append sep [] t h = ground arith
split_on-append sep (c ∷ w) t h = ground (arith, split_on-append sep w t)

-- Splitting undoes joining, for words that do not hold the separator.
pub split_on-join_with :
    (sep : ℕ) (w : Text) (ws : List Text)
    → lacks sep w ≡ true
    → All (λ v. lacks sep v ≡ true) ws
    → split_on sep (join_with (sep ∷ []) (w ∷ ws)) ≡ w ∷ ws
unfolding join_with
split_on-join_with sep w [] h hs = split_on-lacks sep w h
split_on-join_with sep w (v ∷ ws) h hs =
    split_on-append sep w (join_with (sep ∷ []) (v ∷ ws)) h
    ∙ ap (◌∷◌ w) (split_on-join_with sep v ws hs.0 hs.1)

-- The parts of a split do not hold the separator.
pub split_on-All : (sep : ℕ) (t : Text) → All (λ w. lacks sep w ≡ true) (split_on sep t)
unfolding split_on
split_on-All sep [] = (refl, tt)
split_on-All sep (c ∷ t) = part (c == sep) refl (split_on sep t) (split_on-All sep t)
  where
    part :
        (b : Bool)
        → (c == sep) ≡ b
        → (rest : List Text) → All (λ w. lacks sep w ≡ true) rest
        → All (λ w. lacks sep w ≡ true) (if b then [] ∷ rest else add_first c rest)
    part true e rest h = (refl, h)
    part false e [] h = (rw e refl, tt)
    part false e (w ∷ ws) h = (rw e h.0, h.1)

-- Nor another byte that the text does not hold.
pub split_on-All-lacks :
    (sep s : ℕ) (t : Text) → lacks s t ≡ true → All (λ w. lacks s w ≡ true) (split_on sep t)
unfolding split_on
split_on-All-lacks sep s [] k = (refl, tt)
split_on-All-lacks sep s (c ∷ t) k =
    part (c == sep) (c == s) refl (split_on sep t) (split_on-All-lacks sep s t (ground arith))
      (ground arith)
  where
    part :
        (b d : Bool)
        → (c == s) ≡ d
        → (rest : List Text) → All (λ w. lacks s w ≡ true) rest
        → d ≡ false
        → All (λ w. lacks s w ≡ true) (if b then [] ∷ rest else add_first c rest)
    part true d e rest h z = (refl, h)
    part false d e [] h z = (rw e (rw z refl), tt)
    part false d e (w ∷ ws) h z = (rw e (rw z h.0), h.1)
