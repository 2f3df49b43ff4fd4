-- ===== src/Prelude/Table.antt =====
-- An SQL table as the list of its rows, and the statements that the program sends.
pub mod Laws
pub mod Newest
pub mod Parts
use Prim.Native.Nat.{ℕ, ◌+◌}
use mathlib.Core.Bool.{Bool}
use mathlib.Core.List.{List, [], ◌∷◌}
use mathlib.Core.Option.{Option, none, some}
use caspaste.Prelude.Tests.{if◌then◌else◌}

-- What a statement came to: `none` if the database ran it, `some e` for the driver's error `e`.
abbrev pub Outcome : Type 0
Outcome = Option ℕ

module _ {ℓ} {A : Type ℓ} where
  -- `SELECT … WHERE test`, all rows.
  unfoldable pub select : (A → Bool) → List A → List A
  select test [] = []
  select test (r ∷ rs) = if test r then r ∷ select test rs else select test rs

  -- `SELECT … WHERE test`, the first row.
  unfoldable pub select_row : (A → Bool) → List A → Option A
  select_row test [] = none
  select_row test (r ∷ rs) = if test r then some r else select_row test rs

  -- `DELETE … WHERE test`.
  unfoldable pub delete : (A → Bool) → List A → List A
  delete test [] = []
  delete test (r ∷ rs) = if test r then delete test rs else r ∷ delete test rs

  -- `UPDATE … SET change WHERE test`.
  unfoldable pub update : (A → A) → (A → Bool) → List A → List A
  update change test [] = []
  update change test (r ∷ rs) = (if test r then change r else r) ∷ update change test rs

  -- The rows that a statement with this `WHERE` affects.
  unfoldable pub affected : (A → Bool) → List A → ℕ
  affected test [] = 0
  affected test (r ∷ rs) = (if test r then 1 else 0) + affected test rs
