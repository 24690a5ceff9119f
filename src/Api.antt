-- ===== src/Api.antt =====
-- The capture API (source/api).
pub mod Result
pub mod Data
pub mod Wildcard
pub mod Blocklist
pub mod Stream
pub mod Client
pub mod Context
pub mod System
pub mod Requests
pub mod Clocks
mod Examples
