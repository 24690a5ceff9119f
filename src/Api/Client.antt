-- ===== src/Api/Client.antt =====
-- `ClientManager` of source/api/client_manager.cpp: its state and handlers (Manager), the processes of
-- its connections (Owned, Single), and its filter against the blocklist's patterns (Blocked).
pub mod Manager
pub mod Owned
pub mod Single
pub mod Blocked
