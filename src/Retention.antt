-- ===== src/Retention.antt =====
-- src/backup/retention.go: which backups the retention policy deletes. The listing of the directory,
-- newest first, and the size cap that `parseMaxTotalSize` resolves are arguments.
mod Order
mod Cap
mod Tests
use caspaste.Prelude.{
  ℕ, ◌+◌, ◌-◌, ltb, leb, ◌&&◌, ◌||◌, Bool, true, false, if◌then◌else◌, List, [], ◌∷◌, ◌++◌, Text,
  text_eq, length, drop,
}
use caspaste.Prelude.Int.{ℤ, pos, negsuc}
use caspaste.Prelude.Table.{select, delete}

pub data BackupType : Type 0 where
  yearly monthly weekly daily incremental : BackupType

pub record BackupInfo : Type 0 where
  pub file_path : Text
  pub size : ℕ
  pub created_at : ℕ
  pub type : BackupType

pub record RetentionConfig : Type 0 where
  pub max_backups : ℤ
  pub keep_weekly : ℤ
  pub keep_monthly : ℤ
  pub keep_yearly : ℤ

-- A value below the least that is allowed gives way to it.
abbrev at_least : ℕ → ℤ → ℤ
at_least n (negsuc m) = pos n
at_least n (pos m) = if ltb m n then pos n else pos m

-- The configuration that `SetConfig` stores.
pub set_config : RetentionConfig → RetentionConfig
set_config c = record {
  max_backups = at_least 1 c.max_backups;
  keep_weekly = at_least 0 c.keep_weekly;
  keep_monthly = at_least 0 c.keep_monthly;
  keep_yearly = at_least 0 c.keep_yearly;
}

abbrev pub same_type : BackupType → BackupType → Bool
same_type yearly yearly = true
same_type monthly monthly = true
same_type weekly weekly = true
same_type daily daily = true
same_type incremental incremental = true
same_type _ _ = false

abbrev of_type : BackupType → List BackupInfo → List BackupInfo
of_type t = select (λ b. same_type b.type t)

-- The backups after the first `n`, if `n` is above 0.
abbrev surplus : ℤ → List BackupInfo → List BackupInfo
surplus (pos n) bs = if ltb 0 n && ltb n (length bs) then drop n bs else []
surplus (negsuc n) bs = []

abbrev pub deleted_in : List BackupInfo → Text → Bool
deleted_in [] path = false
deleted_in (b ∷ bs) path = text_eq b.file_path path || deleted_in bs path

abbrev pub total : List BackupInfo → ℕ
total [] = 0
total (b ∷ bs) = b.size + total bs

-- Backups of one time stay in the order of the listing here; `sort.Slice` leaves their order open.
unfoldable pub insert_oldest : BackupInfo → List BackupInfo → List BackupInfo
insert_oldest b [] = b ∷ []
insert_oldest b (c ∷ cs) =
    if leb b.created_at c.created_at then b ∷ c ∷ cs else c ∷ insert_oldest b cs

unfoldable pub oldest_first : List BackupInfo → List BackupInfo
unfolding insert_oldest
oldest_first [] = []
oldest_first (b ∷ bs) = insert_oldest b (oldest_first bs)

unfoldable pub survivors : List BackupInfo → List BackupInfo → List BackupInfo
survivors all deleted =
    delete (λ b. deleted_in deleted b.file_path || same_type b.type incremental) all

-- The loop that deletes until the total fits.
unfoldable pub reclaim : ℕ → ℕ → List BackupInfo → List BackupInfo
reclaim cap sum [] = []
reclaim cap sum (b ∷ bs) =
    let rest = reclaim cap (sum - b.size) bs in if leb sum cap then [] else b ∷ rest

-- A cap that is not positive is none.
unfoldable pub apply_size_cap : ℤ → List BackupInfo → List BackupInfo → List BackupInfo
unfolding survivors
apply_size_cap (negsuc n) all deleted = []
apply_size_cap (pos cap) all deleted =
    if ltb 0 cap
    then reclaim cap (total (survivors all deleted)) (oldest_first (survivors all deleted))
    else []

-- What the counts of `Apply` delete.
unfoldable pub by_counts : RetentionConfig → List BackupInfo → List BackupInfo
by_counts c all =
    surplus c.keep_yearly (of_type yearly all)
    ++ (surplus c.keep_monthly (of_type monthly all)
        ++ (surplus c.keep_weekly (of_type weekly all)
            ++ surplus c.max_backups (of_type daily all)))

-- The files that `Apply` tries to remove, in order. `max_backups` is at least 1, by `SetConfig`.
unfoldable pub apply : RetentionConfig → ℤ → List BackupInfo → List BackupInfo
unfolding by_counts apply_size_cap
apply c size_cap all = by_counts c all ++ apply_size_cap size_cap all (by_counts c all)
