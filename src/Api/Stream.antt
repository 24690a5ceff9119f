-- ===== src/Api/Stream.antt =====
-- In-memory streams, source/api/api_trace_io.cpp: the stream object (Memory), its refinement of an
-- abstract file (File, Refinement, Calls, Run), and the provider that owns the buffers (Provider).
pub mod Memory
pub mod File
pub mod Buffer
pub mod Refinement
pub mod Calls
pub mod Run
pub mod Provider
pub mod Consume
