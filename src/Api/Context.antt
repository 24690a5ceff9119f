-- ===== src/Api/Context.antt =====
-- The features of a capture context (source/api/capture_context.cpp): their numbers (Feature), the
-- parameters of a call (Params), the adapters that a feature configures (Adapter), the calls that
-- enable and disable features (Features), and what they keep (Exclusive, Rollback, Live,
-- DriverCalls, Asked, Connected).
pub mod Feature
pub mod Params
pub mod Adapter
pub mod Features
pub mod Exclusive
pub mod Rollback
pub mod Live
pub mod DriverCalls
pub mod Asked
pub mod Connected
