-- ===== src/Trace/Source.antt =====
-- `BaseTraceSource` of source/trace/src/base_trace_source/base_trace_source.inl: the clients of a trace
-- source (Clients), its state and status (State), its handlers (Handlers), its
-- threads (Reporting), the writer of a trace (Writer), and what holds of them.
pub mod Clients
pub mod State
pub mod Handlers
pub mod Calls
pub mod Current
pub mod Built
pub mod Usable
pub mod Placement
pub mod Failure
pub mod Reporting
pub mod Delivery
pub mod Writer
pub mod Heartbeat
pub mod Rdf
pub mod Dumped
pub mod Stored
pub mod Streams
