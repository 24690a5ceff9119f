-- ===== src/Trace.antt =====
-- The tracing library (source/trace).
pub mod Api
pub mod Connections
pub mod Status
pub mod Clocks
pub mod Source
pub mod Overlay
pub mod Spm
pub mod Counters
mod Examples
