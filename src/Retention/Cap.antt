-- ===== src/Retention/Cap.antt =====
-- What the size cap deletes.
use mathlib.Core.List.{Perm}
use mathlib.Core.List.Perm
use mathlib.Core.Path.{subst}
use caspaste.Prelude.{
  true, false, All, ℕ, ◌+◌, ◌-◌, ◌≤◌, ◌<◌, ◌≡◌, ◌⊎◌, inl, inr, refl, sym, ap, ◌∙◌, ltb, leb,
  Bool-cases, List, [], ◌∷◌, ◌++◌, arith,
}
use caspaste.Prelude.Int.{pos}
use caspaste.Prelude.Table.{select, delete}
use caspaste.Prelude.Table.Newest.{select-All}
use caspaste.Prelude.Table.Parts.{select-delete-perm, delete-All, All-weaken}
use caspaste.Retention.Order.{
  Ascending, oldest_first-perm, oldest_first-All, oldest_first-Ascending, IsOpen, is_exempt,
  is_exempt-IsOpen, is_exempt-not_IsOpen,
}
use caspaste.Retention.{
  BackupInfo, total, insert_oldest, oldest_first, survivors, reclaim, apply_size_cap,
}

-- `extra` is the shortest beginning of `bs` without which the rest fits under the cap.
pub record IsCut (most : ℕ) (bs extra : List BackupInfo) : Type 0 where
  pub kept : List BackupInfo
  pub split : bs ≡ extra ++ kept
  pub fits : total kept ≤ most
  pub needed :
      (extra ≡ [])
      ⊎ ((before : List BackupInfo) × (last : BackupInfo) × (extra ≡ before ++ last ∷ [])
          × (most < last.size + total kept))

add_first :
    (most : ℕ) (b : BackupInfo) (bs extra : List BackupInfo)
    → most < b.size + total bs
    → IsCut most bs extra
    → IsCut most (b ∷ bs) (b ∷ extra)
add_first most b bs extra h c = record {
  kept = c.kept;
  split = ap (◌∷◌ b) c.split;
  fits = c.fits;
  needed = needed c.needed;
}
  where
    needed :
        (extra ≡ [])
          ⊎ ((before : List BackupInfo) × (last : BackupInfo) × (extra ≡ before ++ last ∷ [])
              × (most < last.size + total c.kept))
        → (b ∷ extra ≡ [])
          ⊎ ((before : List BackupInfo) × (last : BackupInfo) × (b ∷ extra ≡ before ++ last ∷ [])
              × (most < last.size + total c.kept))
    needed (inl e) =
        let same : bs ≡ c.kept = c.split ∙ ap (λ xs. xs ++ c.kept) e in
        inr ([], b, ap (◌∷◌ b) e, rw (sym same) h)
    needed (inr (before, last, e, l)) = inr (b ∷ before, last, ap (◌∷◌ b) e, l)

at_sum :
    (most : ℕ) (bs : List BackupInfo) (m n : ℕ)
    → m ≡ n
    → IsCut most bs (reclaim most m bs)
    → IsCut most bs (reclaim most n bs)
at_sum most bs m n e c = rw (sym e) c

reclaim-IsCut : (most : ℕ) (bs : List BackupInfo) → IsCut most bs (reclaim most (total bs) bs)
unfolding reclaim
reclaim-IsCut most [] = record { kept = []; split = refl; fits = omega arith; needed = inl refl }
reclaim-IsCut most (b ∷ bs) = elim (Bool-cases (leb (b.size + total bs) most)) [
  | inl h ↦ rw h (record { kept = b ∷ bs; split = refl; fits = ground arith; needed = inl refl })
  | inr h ↦ rw h (
      add_first most b bs (reclaim most (b.size + total bs - b.size) bs) (ground arith) (
        at_sum most bs (total bs) (b.size + total bs - b.size) (omega arith)
          (reclaim-IsCut most bs)))
]

total-insert_oldest :
    (b : BackupInfo) (bs : List BackupInfo) → total (insert_oldest b bs) ≡ b.size + total bs
unfolding insert_oldest
total-insert_oldest b [] = refl
total-insert_oldest b (c ∷ cs) = ground (arith, total-insert_oldest b cs)

total-oldest_first : (bs : List BackupInfo) → total (oldest_first bs) ≡ total bs
unfolding oldest_first
total-oldest_first [] = refl
total-oldest_first (b ∷ bs) =
    omega (arith, total-insert_oldest b (oldest_first bs), total-oldest_first bs)

cut_lem :
    (most : ℕ) (all deleted : List BackupInfo)
    → 0 < most
    → IsCut most (oldest_first (survivors all deleted)) (apply_size_cap (pos most) all deleted)
unfolding apply_size_cap
cut_lem most all deleted h =
    let bs = survivors all deleted in
    elim (Bool-cases (ltb 0 most)) [
      | inl e ↦ rw e (rw (sym (total-oldest_first bs)) (reclaim-IsCut most (oldest_first bs)))
      | inr e ↦ ground arith
    ]

-- All backups are those that the cap leaves alone, those that it deletes and those that it keeps. It
-- leaves alone just those that are not open to it; the others, the deleted ones first, are in the
-- order of their times. What is kept fits under the cap, and would not with the last deleted one.
pub record IsReclaimed (most : ℕ) (all deleted extra : List BackupInfo) : Type 0 where
  pub exempt : List BackupInfo
  pub kept : List BackupInfo
  pub complete : Perm all (exempt ++ (extra ++ kept))
  pub left_alone : All (λ b. ¬ IsOpen deleted b) exempt
  pub touched : All (IsOpen deleted) (extra ++ kept)
  pub oldest : Ascending (extra ++ kept)
  pub fits : total kept ≤ most
  pub needed :
      (extra ≡ [])
      ⊎ ((before : List BackupInfo) × (last : BackupInfo) × (extra ≡ before ++ last ∷ [])
          × (most < last.size + total kept))

-- Under a positive cap, of the backups that are not incremental and whose path was not deleted before
-- the oldest are deleted, no more of them than it takes for the rest of these to fit under the cap;
-- nothing exempts the newest backup from it.
pub apply_size_cap-IsReclaimed :
    (most : ℕ) (all deleted : List BackupInfo)
    → 0 < most
    → IsReclaimed most all deleted (apply_size_cap (pos most) all deleted)
unfolding survivors
apply_size_cap-IsReclaimed most all deleted h =
    let cut = cut_lem most all deleted h in
    let test = is_exempt deleted in
    let bs = survivors all deleted in
    let free =
      All-weaken (λ b. test b ≡ false) (IsOpen deleted) (delete test all) (is_exempt-IsOpen deleted)
        (delete-All test all) in
    record {
      exempt = select test all;
      kept = cut.kept;
      complete =
          subst (λ xs. Perm all (select test all ++ xs)) cut.split
            (Perm.trans (select-delete-perm test all)
              (Perm.append_left (select test all) (oldest_first-perm bs)));
      left_alone =
          All-weaken (λ b. test b ≡ true) (λ b. ¬ IsOpen deleted b) (select test all)
            (is_exempt-not_IsOpen deleted) (select-All test all);
      touched = subst (All (IsOpen deleted)) cut.split (oldest_first-All (IsOpen deleted) bs free);
      oldest = subst Ascending cut.split (oldest_first-Ascending bs);
      fits = cut.fits;
      needed = cut.needed;
    }
