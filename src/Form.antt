-- ===== src/Form.antt =====
-- src/netshare/paste.go: the creation of a paste from a request, over the rate limits, the line
-- ends, the Boolean words and the storage. What package net/http has decoded of a request is data.
pub mod Request
pub mod Upload
pub mod Checks
pub mod Handler
mod Titles
pub mod Accept
pub mod Limits
pub mod Store
mod Tests
