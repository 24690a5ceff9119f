-- ===== src/Api/Requests.antt =====
-- `TraceSourceAdapter` of source/api/trace_source_adapter.cpp between a trace source and the user's
-- callbacks: the events of the source (Events), the requests to it (Traces), and what holds of the
-- reported stages (Stages) and of a finished trace (Finished).
pub mod Events
pub mod Traces
pub mod Stages
pub mod Finished
