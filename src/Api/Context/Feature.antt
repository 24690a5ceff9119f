-- ===== src/Api/Context/Feature.antt =====
-- `RdpCaptureFeature` of source/api/RdpCaptureApi.h: a feature is its number, since a caller in C may
-- pass any.
use radeon_developer_panel.Common.{ℕ}

abbrev pub unknown : ℕ
unknown = 0

abbrev pub profiling : ℕ
profiling = 1

abbrev pub memory_trace : ℕ
memory_trace = 2

abbrev pub raytracing : ℕ
raytracing = 3

abbrev pub crash_analysis : ℕ
crash_analysis = 4
