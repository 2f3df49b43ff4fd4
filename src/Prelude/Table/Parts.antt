-- ===== src/Prelude/Table/Parts.antt =====
-- The two parts into which a condition cuts a table.
use mathlib.Core.List.{Perm, perm_middle}
use mathlib.Core.List.Perm
use mathlib.Core.Path.{◌≡◌}
use mathlib.Core.Logic.{inl, inr}
use mathlib.Core.Bool.{Bool, false}
use mathlib.Core.List.{List, [], ◌∷◌, ◌++◌}
use caspaste.Prelude.Tests.{Bool-cases}
use caspaste.Prelude.Lists.{All}
use caspaste.Prelude.Table.{select, delete}

module _ {ℓ} {A : Type ℓ} (test : A → Bool) where
  pub select-delete-perm : (rs : List A) → Perm rs (select test rs ++ delete test rs)
  unfolding select delete
  select-delete-perm [] = Perm.refl _
  select-delete-perm (r ∷ rs) = elim (Bool-cases (test r)) [
    | inl h ↦ rw h (Perm.cons r (select-delete-perm rs))
    | inr h ↦ rw h (
        Perm.trans (Perm.cons r (select-delete-perm rs))
          (Perm.symm (perm_middle (select test rs) (delete test rs))))
  ]

  pub delete-All : (rs : List A) → All (λ r. test r ≡ false) (delete test rs)
  unfolding delete
  delete-All [] = tt
  delete-All (r ∷ rs) = elim (Bool-cases (test r)) [
    | inl h ↦ rw h (delete-All rs)
    | inr h ↦ rw h (h, delete-All rs)
  ]

-- One condition in the place of another, which follows from it.
pub All-weaken {ℓ κ μ} :
    {A : Type ℓ} (P : A → Type κ) (Q : A → Type μ) (rs : List A)
    → ((r : A) → P r → Q r)
    → All P rs
    → All Q rs
All-weaken P Q [] f h = tt
All-weaken P Q (r ∷ rs) f h = (f r h.0, All-weaken P Q rs f h.1)
