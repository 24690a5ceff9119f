-- ===== src/Api/System.antt =====
-- `GetSystemInfo` and `FreeSystemInfo` of source/api/capture_context.cpp: the records on both sides
-- (Info), the memory and the copies (Populate), the two calls (Calls), and what holds of the memory
-- (Held, Balance) and of the copies (Copies).
pub mod Info
pub mod Populate
pub mod Calls
pub mod Held
pub mod Balance
pub mod Copies
