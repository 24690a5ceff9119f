-- ===== src/Trace/Clocks.antt =====
-- The device clocks of source/trace/src/device_clocks.cpp: one GPU (Gpu), the manager (Manager), what
-- forcing the peak mode does to the clocks (Peak), what the connections have asked for (Asked), the
-- events of the router (Router), and the names that the GPUs get (Names).
pub mod Gpu
pub mod Manager
pub mod Peak
pub mod Asked
pub mod Router
pub mod Names
