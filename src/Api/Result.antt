-- ===== src/Api/Result.antt =====
-- `RdpCaptureResult` of source/api/RdpCaptureApi.h.
use radeon_developer_panel.Common.{Bool, true, false}

pub data CaptureResult : Type 0 where
  success not_ready unknown failure unsupported not_found aborted invalid_params version_mismatch :
      CaptureResult

abbrev pub is_success : CaptureResult → Bool
is_success CaptureResult.success = true
is_success _ = false
