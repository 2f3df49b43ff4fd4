-- ===== src/Web.antt =====
-- src/web/auth.go, csrf.go and middleware.go: the cookie of a login, who may pass, and what stands
-- before every handler.
pub mod Tokens
pub mod Login
mod Guessing
pub mod Access
pub mod Csrf
mod Submits
pub mod Cors
pub mod Paths
mod Passing
mod Tests
