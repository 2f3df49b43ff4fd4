-- ===== src/Validation.antt =====
-- src/validation: Boolean words (bool.go), database drivers (driver.go) and domain names (fqdn.go).
pub mod Bools
pub mod Driver
pub mod Fqdn
mod Urls
mod Names
mod Tests
