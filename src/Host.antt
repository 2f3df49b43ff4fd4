-- ===== src/Host.antt =====
-- src/netshare/host.go: what a request says of its host, its protocol and its client, behind proxies.
pub mod Headers
pub mod Url
pub mod Client
mod Ranges
mod Trust
mod Ports
mod Tests
