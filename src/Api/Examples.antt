-- ===== src/Api/Examples.antt =====
-- The theorems on source/api at concrete inputs.
mod Blocklist
mod Streams
mod Clients
mod Contexts
mod System
mod Requests
mod Clocks
