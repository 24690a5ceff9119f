-- ===== src/Api/Blocklist.antt =====
-- The application blocklist, source/api/api_blocklist.cpp: text routines (Text), the built-in
-- entries (Defaults), the operations (Entries), and what they guarantee.
pub mod Text
pub mod Defaults
pub mod Entries
pub mod Distinct
pub mod Created
pub mod Blocking
pub mod Literal
pub mod RoundTrip
pub mod File
