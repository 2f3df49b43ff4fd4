-- ===== src/Retention/Tests.antt =====
-- Backups of one day each.
use caspaste.Prelude.{ℕ, ◌≡◌, refl, List, [], ◌∷◌, codes, arith, Text, text_eq}
use caspaste.Prelude.Int.{pos}
use caspaste.Prelude.Table.{select, delete}
use caspaste.Retention.{
  BackupInfo, BackupType, daily, weekly, incremental, RetentionConfig, apply, apply_size_cap,
  survivors, oldest_first, insert_oldest, reclaim,
}
use caspaste.Retention.Cap.{IsReclaimed, apply_size_cap-IsReclaimed}

abbrev backup : Text → ℕ → BackupType → BackupInfo
backup path time type = record { file_path = path; size = 10; created_at = time; type = type }

abbrev backups : List BackupInfo
backups =
    backup (codes "d") 4 incremental
    ∷ backup (codes "c") 3 daily
    ∷ backup (codes "b") 2 daily
    ∷ backup (codes "a") 1 weekly
    ∷ []

abbrev config : RetentionConfig
config = record {
  max_backups = pos 1;
  keep_weekly = pos 0;
  keep_monthly = pos 0;
  keep_yearly = pos 0;
}

-- One daily backup is kept, and all weekly ones.
kept_without_cap : apply config (pos 0) backups ≡ backup (codes "b") 2 daily ∷ []
unfolding apply select
kept_without_cap = refl

-- Under a cap below the size of one backup all of them go but the incremental one.
all_deleted :
    apply config (pos 9) backups
    ≡ backup (codes "b") 2 daily ∷ backup (codes "a") 1 weekly ∷ backup (codes "c") 3 daily ∷ []
unfolding apply select delete oldest_first insert_oldest reclaim survivors text_eq
all_deleted = refl

apply_size_cap-IsReclaimed_example : IsReclaimed 15 backups [] (apply_size_cap (pos 15) backups [])
apply_size_cap-IsReclaimed_example = apply_size_cap-IsReclaimed 15 backups [] (omega arith)
