-- ===== src/Token.antt =====
-- src/token/token.go: API tokens of users, organizations and server admins. SHA-256 with its
-- hexadecimal form is the parameter `hash_token`; random bytes, clock readings and what became of
-- each statement are arguments.
pub mod Model
pub mod Create
pub mod Validate
mod Rows
mod Accept
mod Cleanup
mod Revoke
mod Scopes
mod Listing
mod Tests
