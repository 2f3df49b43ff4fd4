-- ===== src/Secrets.antt =====
-- src/backup/encryption.go and src/storage/secrets.go: encrypted backups, and the secrets that outlive
-- a restart.
pub mod Encryption
mod Sealed
pub mod Stored
mod Restarts
mod Tests
