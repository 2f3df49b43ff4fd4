-- ===== src/Retention/Order.antt =====
-- The backups that the size cap looks at, in the order in which it does.
use mathlib.Core.List.{Perm}
use mathlib.Core.List.Perm
use caspaste.Prelude.{
  ◌≤◌, ◌≡◌, ◌≢◌, refl, sym, ap, ◌∙◌, ◌||◌, Bool, true, false, Bool-cases, inl, inr, leb, List, [],
  ◌∷◌, Text, text_eq, text_eq_iff, text_eq_refl, All, arith,
}
use caspaste.Prelude.Table.Parts.{All-weaken}
use caspaste.Retention.{
  BackupInfo, BackupType, yearly, monthly, weekly, daily, incremental, same_type, deleted_in,
  insert_oldest, oldest_first,
}

abbrev pub Ascending : List BackupInfo → Type 0
Ascending [] = Unit {0}
Ascending (b ∷ bs) = All (λ c. b.created_at ≤ c.created_at) bs × Ascending bs

insert_oldest-perm : (b : BackupInfo) (bs : List BackupInfo) → Perm (b ∷ bs) (insert_oldest b bs)
unfolding insert_oldest
insert_oldest-perm b [] = Perm.refl _
insert_oldest-perm b (c ∷ cs) = elim (Bool-cases (leb b.created_at c.created_at)) [
  | inl h ↦ rw h (Perm.refl _)
  | inr h ↦ rw h (Perm.trans (Perm.swap c b cs) (Perm.cons c (insert_oldest-perm b cs)))
]

pub oldest_first-perm : (bs : List BackupInfo) → Perm bs (oldest_first bs)
unfolding oldest_first
oldest_first-perm [] = Perm.refl _
oldest_first-perm (b ∷ bs) =
    Perm.trans (Perm.cons b (oldest_first-perm bs)) (insert_oldest-perm b (oldest_first bs))

All-insert {κ} :
    (P : BackupInfo → Type κ) (b : BackupInfo) (bs : List BackupInfo)
    → P b
    → All P bs
    → All P (insert_oldest b bs)
unfolding insert_oldest
All-insert P b [] h hs = (h, tt)
All-insert P b (c ∷ cs) h hs = elim (Bool-cases (leb b.created_at c.created_at)) [
  | inl e ↦ rw e (h, hs)
  | inr e ↦ rw e (hs.0, All-insert P b cs h hs.1)
]

pub oldest_first-All {κ} :
    (P : BackupInfo → Type κ) (bs : List BackupInfo) → All P bs → All P (oldest_first bs)
unfolding oldest_first
oldest_first-All P [] h = tt
oldest_first-All P (b ∷ bs) h = All-insert P b (oldest_first bs) h.0 (oldest_first-All P bs h.1)

insert_oldest-Ascending :
    (b : BackupInfo) (bs : List BackupInfo) → Ascending bs → Ascending (insert_oldest b bs)
unfolding insert_oldest
insert_oldest-Ascending b [] a = (tt, tt)
insert_oldest-Ascending b (c ∷ cs) a = elim (Bool-cases (leb b.created_at c.created_at)) [
  | inl h ↦ rw h (
    (
      ground arith,
      All-weaken (λ d. c.created_at ≤ d.created_at) (λ d. b.created_at ≤ d.created_at) cs
          (λ d k. ground (arith, h)) a.0,
    ),
    a,
  )
  | inr h ↦ rw h (
    All-insert (λ d. c.created_at ≤ d.created_at) b cs (ground arith) a.0,
    insert_oldest-Ascending b cs a.1,
  )
]

pub oldest_first-Ascending : (bs : List BackupInfo) → Ascending (oldest_first bs)
unfolding oldest_first
oldest_first-Ascending [] = tt
oldest_first-Ascending (b ∷ bs) =
    insert_oldest-Ascending b (oldest_first bs) (oldest_first-Ascending bs)

-- A backup that the cap may delete: it is not incremental, and no backup of its path was deleted
-- before.
pub record IsOpen (deleted : List BackupInfo) (b : BackupInfo) : Type 0 where
  pub not_incremental : b.type ≢ incremental
  pub not_deleted : All (λ d. d.file_path ≢ b.file_path) deleted

abbrev pub is_exempt : List BackupInfo → BackupInfo → Bool
is_exempt deleted b = deleted_in deleted b.file_path || same_type b.type incremental

same_type-incremental : (t : BackupType) → t ≡ incremental → same_type t incremental ≡ true
same_type-incremental t e = rw e refl

deleted_in-none :
    (deleted : List BackupInfo) (path : Text)
    → deleted_in deleted path ≡ false
    → All (λ d. d.file_path ≢ path) deleted
deleted_in-none [] path h = tt
deleted_in-none (d ∷ ds) path h = (
  λ e. clash (sym (ap (λ p. text_eq p path) e ∙ text_eq_refl path) ∙ first),
  deleted_in-none ds path (ground (arith, h)),
)
  where
    first : text_eq d.file_path path ≡ false
    first = ground (arith, h)

    clash : true ≢ false
    clash k = cc

deleted_in-some :
    (deleted : List BackupInfo) (path : Text)
    → deleted_in deleted path ≡ true
    → ¬ All (λ d. d.file_path ≢ path) deleted
deleted_in-some [] path h a = cc
deleted_in-some (d ∷ ds) path h a = elim (Bool-cases (text_eq d.file_path path)) [
  | inl e ↦ a.0 ((text_eq_iff d.file_path path).0 e)
  | inr e ↦ deleted_in-some ds path (ground (arith, h, e)) a.1
]

pub is_exempt-IsOpen :
    (deleted : List BackupInfo) (b : BackupInfo) → is_exempt deleted b ≡ false → IsOpen deleted b
is_exempt-IsOpen deleted b h = record {
  not_incremental = λ e. apart (sym (same_type-incremental b.type e) ∙ ground (arith, h));
  not_deleted = deleted_in-none deleted b.file_path (ground (arith, h));
}
  where
    apart : true ≢ false
    apart k = cc

incremental_only : (t : BackupType) → same_type t incremental ≡ true → t ≡ incremental
incremental_only yearly h = cc
incremental_only monthly h = cc
incremental_only weekly h = cc
incremental_only daily h = cc
incremental_only incremental h = refl

pub is_exempt-not_IsOpen :
    (deleted : List BackupInfo) (b : BackupInfo) → is_exempt deleted b ≡ true → ¬ IsOpen deleted b
is_exempt-not_IsOpen deleted b h o = elim (Bool-cases (deleted_in deleted b.file_path)) [
  | inl e ↦ deleted_in-some deleted b.file_path e o.not_deleted
  | inr e ↦ o.not_incremental (incremental_only b.type (ground (arith, h, e)))
]
