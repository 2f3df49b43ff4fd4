-- ===== src/Prelude/Maps.antt =====
-- Go maps with string keys, as functions, and the loops that delete while they range over a map.
use mathlib.Core.Bool.{Bool}
use mathlib.Core.Option.{Option, none, some}
use caspaste.Prelude.Tests.{if◌then◌else◌}
use caspaste.Prelude.Texts.{Text, text_eq}

abbrev pub Map {ℓ} : Type ℓ → Type ℓ
Map V = Text → Option V

module _ {ℓ} {V : Type ℓ} where
  abbrev pub put : Text → V → Map V → Map V
  put k v m j = if text_eq j k then some v else m j

  -- `delete(m, k)`.
  abbrev pub remove : Text → Map V → Map V
  remove k m j = if text_eq j k then none else m j

  abbrev drop_if : (V → Bool) → Option V → Option V
  drop_if test none = none
  drop_if test (some v) = if test v then none else some v

  -- `for k, v := range m { if test(v) { delete(m, k) } }`.
  abbrev pub purge : (V → Bool) → Map V → Map V
  purge test m j = drop_if test (m j)

  -- `m[k]`, with the zero value for a missing key.
  abbrev pub read_or : V → Option V → V
  read_or zero_value none = zero_value
  read_or zero_value (some v) = v
