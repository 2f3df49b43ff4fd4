-- ===== src/Password.antt =====
-- src/caspasswd/caspasswd.go: the file of users and password hashes. What the file system, Argon2id,
-- bcrypt and the source of random bytes give are arguments.
pub mod Entries
pub mod Argon
pub mod Accounts
mod Files
mod Verify
mod Login
mod Tests
