-- ===== src/Prelude/Table/Laws.antt =====
-- How the statements act on one another.
use caspaste.Prelude.Tests.{if◌then◌else◌}
use caspaste.Prelude.Table.{select_row, delete, update, affected}
use Prim.Native.Nat.{◌+◌, ◌≤◌}
use mathlib.Core.Path.{◌≡◌, refl}
use mathlib.Core.Bool.{Bool, true, false}
use mathlib.Core.List.{List, [], ◌∷◌, ◌++◌}
use mathlib.Core.Option.{none, some}
use native.Mathlib.Omega.{arith}

module _ {ℓ} {A : Type ℓ} where
  pub affected-delete : (test : A → Bool) (rs : List A) → affected test (delete test rs) ≡ 0
  unfolding affected delete
  affected-delete test [] = refl
  affected-delete test (r ∷ rs) = ground (arith, affected-delete test rs)

  -- A statement whose rows have all been deleted finds nothing.
  pub select_row-delete-none :
      (test del : A → Bool) (rs : List A)
      → ((r : A) → test r ≡ true → del r ≡ true)
      → select_row test (delete del rs) ≡ none
  unfolding select_row delete
  select_row-delete-none test del [] h = refl
  select_row-delete-none test del (r ∷ rs) h =
      ground (arith, h r, select_row-delete-none test del rs h)

  -- A deletion that spares the rows of a query does not change its answer.
  pub select_row-delete_spare :
      (test del : A → Bool) (rs : List A)
      → ((r : A) → test r ≡ true → del r ≡ false)
      → select_row test (delete del rs) ≡ select_row test rs
  unfolding select_row delete
  select_row-delete_spare test del [] h = refl
  select_row-delete_spare test del (r ∷ rs) h =
      ground (arith, h r, select_row-delete_spare test del rs h)

  pub select_row-eq_some :
      (test : A → Bool) (rs : List A) {r : A} → select_row test rs ≡ some r → test r ≡ true
  unfolding select_row
  select_row-eq_some test [] e = cc
  select_row-eq_some test (x ∷ rs) {r} e = ground (arith, select_row-eq_some test rs {r = r})

  pub affected-zero_iff :
      (test : A → Bool) (rs : List A) → affected test rs ≡ 0 → select_row test rs ≡ none
  unfolding select_row affected
  affected-zero_iff test [] e = refl
  affected-zero_iff test (x ∷ rs) e = ground (arith, affected-zero_iff test rs)

  pub select_row-none :
      (test : A → Bool) (rs : List A) → select_row test rs ≡ none → affected test rs ≡ 0
  unfolding select_row affected
  select_row-none test [] e = refl
  select_row-none test (x ∷ rs) e = ground (arith, select_row-none test rs)

  pub delete_none : (test : A → Bool) (rs : List A) → affected test rs ≡ 0 → delete test rs ≡ rs
  unfolding delete affected
  delete_none test [] e = refl
  delete_none test (x ∷ rs) e = ground (arith, delete_none test rs)

  pub select_row-append-none :
      (test : A → Bool) (rs ss : List A)
      → select_row test rs ≡ none
      → select_row test (rs ++ ss) ≡ select_row test ss
  unfolding select_row
  select_row-append-none test [] ss e = refl
  select_row-append-none test (r ∷ rs) ss e = ground (arith, select_row-append-none test rs ss)

  pub select_row-append_miss :
      (test : A → Bool) (rs : List A) (x : A)
      → test x ≡ false
      → select_row test (rs ++ x ∷ []) ≡ select_row test rs
  unfolding select_row
  select_row-append_miss test [] x e = ground arith
  select_row-append_miss test (r ∷ rs) x e = ground (arith, select_row-append_miss test rs x)

  -- An update that a query neither reads nor writes: the answer is the changed row.
  pub select_row-update :
      (test w : A → Bool) (change : A → A) (rs : List A)
      → ((r : A) → test (change r) ≡ test r)
      → select_row test (update change w rs)
        ≡ (elim (select_row test rs) [ none ↦ none | some r ↦ some (if w r then change r else r) ])
  unfolding select_row update
  select_row-update test w change [] h = refl
  select_row-update test w change (r ∷ rs) h =
      ground (arith, h r, select_row-update test w change rs h)

  pub update_none :
      (change : A → A) (test : A → Bool) (rs : List A)
      → affected test rs ≡ 0
      → update change test rs ≡ rs
  unfolding update affected
  update_none change test [] e = refl
  update_none change test (r ∷ rs) e = ground (arith, update_none change test rs)

  pub affected-append :
      (test : A → Bool) (rs ss : List A)
      → affected test (rs ++ ss) ≡ affected test rs + affected test ss
  unfolding affected
  affected-append test [] ss = omega arith
  affected-append test (r ∷ rs) ss = omega (arith, affected-append test rs ss)

  pub affected-delete-le :
      (test del : A → Bool) (rs : List A) → affected test (delete del rs) ≤ affected test rs
  unfolding affected delete
  affected-delete-le test del [] = omega arith
  affected-delete-le test del (r ∷ rs) = ground (arith, affected-delete-le test del rs)

  pub affected-update :
      (test w : A → Bool) (change : A → A) (rs : List A)
      → ((r : A) → test (change r) ≡ test r)
      → affected test (update change w rs) ≡ affected test rs
  unfolding affected update
  affected-update test w change [] h = refl
  affected-update test w change (r ∷ rs) h = ground (arith, h r, affected-update test w change rs h)

  -- The row that a query finds is still found where a deletion spares it.
  pub select_row-delete_first :
      (test del : A → Bool) (rs : List A) (r : A)
      → select_row test rs ≡ some r
      → del r ≡ false
      → select_row test (delete del rs) ≡ some r
  unfolding select_row delete
  select_row-delete_first test del [] r e d = cc
  select_row-delete_first test del (x ∷ rs) r e d =
      ground (arith, select_row-delete_first test del rs r)

  -- What a deletion does to a query that at most one row answers.
  pub select_row-delete_unique :
      (test del : A → Bool) (rs : List A)
      → affected test rs ≤ 1
      → select_row test (delete del rs)
        ≡ (elim (select_row test rs) [ none ↦ none | some r ↦ (if del r then none else some r) ])
  unfolding select_row delete affected
  select_row-delete_unique test del [] u = refl
  select_row-delete_unique test del (r ∷ rs) u =
      ground (arith, select_row-delete_unique test del rs, affected-zero_iff test rs)

  -- A row that survives a deletion was not one of those to delete.
  pub select_row-delete_kept :
      (test del : A → Bool) (rs : List A) (r : A)
      → select_row test (delete del rs) ≡ some r
      → del r ≡ false
  unfolding select_row delete
  select_row-delete_kept test del [] r e = cc
  select_row-delete_kept test del (x ∷ rs) r e =
      ground (arith, select_row-delete_kept test del rs r)

  -- A new row that no earlier one hides.
  pub select_row-append_hit :
      (test : A → Bool) (rs : List A) (x : A)
      → affected test rs ≡ 0
      → test x ≡ true
      → select_row test (rs ++ x ∷ []) ≡ some x
  unfolding select_row affected
  select_row-append_hit test [] x u e = ground arith
  select_row-append_hit test (r ∷ rs) x u e = ground (arith, select_row-append_hit test rs x)
