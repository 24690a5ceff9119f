-- ===== src/Trace/Spm.antt =====
-- The chunk of derived counters in a trace file, source/trace/src/counters/rgp_derived_spm_database.cpp: values
-- in memory (Words) and how they are written to a buffer (Buffer), the header of a chunk (Header), the search
-- for a chunk (Search), the database and the chunk that is written of it (Database, Serialize), and what holds
-- of them.
pub mod Words
pub mod Buffer
pub mod Header
pub mod Search
pub mod Ends
pub mod Find
pub mod File
pub mod Database
pub mod Serialize
pub mod Pieces
pub mod Layout
pub mod Sizes
pub mod Known
pub mod Infos
pub mod Written
pub mod Indices
