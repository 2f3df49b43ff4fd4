-- ===== src/Totp.antt =====
-- src/totp/totp.go: one-time passwords and recovery keys. HMAC-SHA1, SHA-256 and the base32 coding of
-- secrets are parameters; the clock and the random bytes are arguments.
pub mod Codes
pub mod Recovery
mod Window
mod Formats
mod Tests
