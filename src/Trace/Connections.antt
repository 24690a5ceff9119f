-- ===== src/Trace/Connections.antt =====
-- `ClientConnectionManager` of source/trace/src/client_connection_manager.cpp: its state and
-- handlers (Manager), and what any sequence of events keeps (Invariant, Update).
pub mod Manager
pub mod Invariant
pub mod Update
