-- ===== src/Prelude/Table/Newest.antt =====
-- `ORDER BY … DESC` of a column with a time.
use mathlib.Core.List.{Perm}
use mathlib.Core.List.Perm
use Prim.Native.Nat.{ℕ, ◌≤◌}
use mathlib.Core.Path.{◌≡◌}
use mathlib.Core.Logic.{inl, inr}
use mathlib.Core.Bool.{Bool, true}
use mathlib.Core.List.{List, [], ◌∷◌}
use native.Mathlib.Omega.{arith}
use caspaste.Prelude.Tests.{leb, if◌then◌else◌, Bool-cases}
use caspaste.Prelude.Lists.{All}
use caspaste.Prelude.Table.{select}

module _ {ℓ} {A : Type ℓ} (time : A → ℕ) where
  -- Rows of one time stay in the order of the table.
  unfoldable pub insert_newest : A → List A → List A
  insert_newest p [] = p ∷ []
  insert_newest p (q ∷ qs) = if leb (time q) (time p) then p ∷ q ∷ qs else q ∷ insert_newest p qs

  unfoldable pub newest_first : List A → List A
  unfolding insert_newest
  newest_first [] = []
  newest_first (p ∷ ps) = insert_newest p (newest_first ps)

  abbrev pub Descending : List A → Type 0
  Descending [] = Unit {0}
  Descending (p ∷ ps) = All (λ q. time q ≤ time p) ps × Descending ps

  insert_newest-perm : (p : A) (ps : List A) → Perm (p ∷ ps) (insert_newest p ps)
  unfolding insert_newest
  insert_newest-perm p [] = Perm.refl _
  insert_newest-perm p (q ∷ qs) = elim (Bool-cases (leb (time q) (time p))) [
    | inl h ↦ rw h (Perm.refl _)
    | inr h ↦ rw h (Perm.trans (Perm.swap q p qs) (Perm.cons q (insert_newest-perm p qs)))
  ]

  pub newest_first-perm : (ps : List A) → Perm ps (newest_first ps)
  unfolding newest_first
  newest_first-perm [] = Perm.refl _
  newest_first-perm (p ∷ ps) =
      Perm.trans (Perm.cons p (newest_first-perm ps)) (insert_newest-perm p (newest_first ps))

  All-insert {κ} :
      (P : A → Type κ) (p : A) (ps : List A) → P p → All P ps → All P (insert_newest p ps)
  unfolding insert_newest
  All-insert P p [] h hs = (h, tt)
  All-insert P p (q ∷ qs) h hs = elim (Bool-cases (leb (time q) (time p))) [
    | inl e ↦ rw e (h, hs)
    | inr e ↦ rw e (hs.0, All-insert P p qs h hs.1)
  ]

  All-older : (a b : ℕ) (ps : List A) → a ≤ b → All (λ q. time q ≤ a) ps → All (λ q. time q ≤ b) ps
  All-older a b [] h hs = tt
  All-older a b (p ∷ ps) h hs = (omega (arith, hs.0), All-older a b ps h hs.1)

  insert_newest-Descending : (p : A) (ps : List A) → Descending ps → Descending (insert_newest p ps)
  unfolding insert_newest
  insert_newest-Descending p [] d = (tt, tt)
  insert_newest-Descending p (q ∷ qs) d = elim (Bool-cases (leb (time q) (time p))) [
    | inl h ↦ rw h ((ground arith, All-older (time q) (time p) qs (ground arith) d.0), d)
    | inr h ↦ rw h (
      All-insert (λ r. time r ≤ time q) p qs (ground arith) d.0,
      insert_newest-Descending p qs d.1,
    )
  ]

  pub newest_first-Descending : (ps : List A) → Descending (newest_first ps)
  unfolding newest_first
  newest_first-Descending [] = tt
  newest_first-Descending (p ∷ ps) =
      insert_newest-Descending p (newest_first ps) (newest_first-Descending ps)

  pub newest_first-All {κ} : (P : A → Type κ) (ps : List A) → All P ps → All P (newest_first ps)
  unfolding newest_first
  newest_first-All P [] h = tt
  newest_first-All P (p ∷ ps) h = All-insert P p (newest_first ps) h.0 (newest_first-All P ps h.1)

pub select-All {ℓ} :
    {A : Type ℓ} (test : A → Bool) (ps : List A) → All (λ p. test p ≡ true) (select test ps)
unfolding select
select-All test [] = tt
select-All test (p ∷ ps) = elim (Bool-cases (test p)) [
  | inl h ↦ rw h (h, select-All test ps)
  | inr h ↦ rw h (select-All test ps)
]
