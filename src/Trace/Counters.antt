-- ===== src/Trace/Counters.antt =====
-- The components of derived counters that source/trace/src/counters/rgp_spm_database_parse.cpp gives out.
pub mod Formula
pub mod Sums
