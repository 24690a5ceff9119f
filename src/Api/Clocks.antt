-- ===== src/Api/Clocks.antt =====
-- `ApiClocks` of source/api/api_clocks.cpp, on the model of `DeviceClocksManager`. A mode of the API has
-- the number of the trace library's mode.
use radeon_developer_panel.Common.{
  ℕ, ◌≡◌, ◌≢◌, refl, ap, sym, ◌∙◌, Bool, true, List, [], ◌∷◌, ◌++◌, map, Option, none, some,
  if◌then◌else◌, Bytes, get_elem?, zero, suc, arith,
}
use radeon_developer_panel.Trace.Clocks.Gpu.{
  ClockMode, Gpu, ClocksDriver, query_clock_mode, request_mode,
}
use radeon_developer_panel.Trace.Clocks.Manager.{
  ClocksManager, Overlay, query_mode_of, request_mode_of, request_gpu_mode,
}
use radeon_developer_panel.Api.Result.{CaptureResult}

-- `RdpCaptureGpuClockModeDetails`.
pub record ClockModeDetails : Type 0 where
  pub mode : ℕ
  pub min_gpu_freq : ℕ
  pub max_gpu_freq : ℕ
  pub min_mem_freq : ℕ
  pub max_mem_freq : ℕ

pub record ClockGpuDetails : Type 0 where
  pub gpu_id : ℕ
  pub api_modes : List ClockModeDetails

abbrev api_mode : ClockMode → ClockModeDetails
api_mode m = record {
  mode = m.type;
  min_gpu_freq = m.min_gpu_freq;
  max_gpu_freq = m.max_gpu_freq;
  min_mem_freq = m.min_mem_freq;
  max_mem_freq = m.max_mem_freq;
}

-- `ConvertGpus`: the GPUs of an event are put after those that are known.
unfoldable pub convert_gpus : (Bytes → ℕ) → List Gpu → List ClockGpuDetails → List ClockGpuDetails
convert_gpus get_id gpus known =
    known
    ++ map (λ g. record { gpu_id = get_id g.gpu_name; api_modes = map api_mode g.clock_modes }) gpus

-- `GetGpuClockModes`: the modes that are copied, or a read out of bounds, which follows the check of the
-- index.
unfoldable pub get_gpu_clock_modes : List ClockGpuDetails → ℕ → Option (List ClockModeDetails)
get_gpu_clock_modes gpus index = elim (get_elem? gpus index) [
  | none ↦ none
  | some details ↦ some details.api_modes
]

abbrev query_found :
    ClocksDriver → (Bytes → ℕ) → ClocksManager → Option ClockGpuDetails → CaptureResult × Option ℕ
unfolding query_mode_of
query_found driver get_id m none = (CaptureResult.invalid_params, none)
query_found driver get_id m (some details) =
    (CaptureResult.success, some (query_mode_of driver get_id details.gpu_id m.updatable_gpus))

-- The result, and what is written to the mode.
unfoldable pub query_gpu_current_clock_mode :
    ClocksDriver → (Bytes → ℕ) → List ClockGpuDetails → ℕ → ClocksManager → CaptureResult × Option ℕ
unfolding query_found
query_gpu_current_clock_mode driver get_id gpus index m =
    query_found driver get_id m (get_elem? gpus index)

abbrev set_answer : Bool × ClocksManager × Option Overlay → CaptureResult × ClocksManager
set_answer (result, m, overlay) =
    (if result then CaptureResult.success else CaptureResult.failure, m)

abbrev set_found :
    ClocksDriver
    → (Bytes → ℕ)
    → ℕ
    → ClocksManager
    → Option ClockGpuDetails
    → CaptureResult × ClocksManager
unfolding request_gpu_mode
set_found driver get_id mode m none = (CaptureResult.invalid_params, m)
set_found driver get_id mode m (some details) =
    set_answer (request_gpu_mode driver get_id details.gpu_id mode m)

unfoldable pub set_current_gpu_clock_mode :
    ClocksDriver
    → (Bytes → ℕ)
    → List ClockGpuDetails
    → ℕ
    → ℕ
    → ClocksManager
    → CaptureResult × ClocksManager
unfolding set_found
set_current_gpu_clock_mode driver get_id gpus index mode m =
    set_found driver get_id mode m (get_elem? gpus index)

request_mode_of-query :
    (driver : ClocksDriver) (get_id : Bytes → ℕ) (id mode : ℕ) (gs : List Gpu)
    → (request_mode_of driver get_id id mode gs).0 ≡ true
    → query_mode_of driver get_id id (request_mode_of driver get_id id mode gs).1 ≡ mode
unfolding request_mode_of query_mode_of request_mode query_clock_mode
request_mode_of-query driver get_id id mode [] h = cc
request_mode_of-query driver get_id id mode (g ∷ gs) h =
    ground (arith, request_mode_of-query driver get_id id mode gs)

request_mode_of-other :
    (driver : ClocksDriver) (get_id : Bytes → ℕ) (id other mode : ℕ) (gs : List Gpu)
    → other ≢ id
    → query_mode_of driver get_id other (request_mode_of driver get_id id mode gs).1
      ≡ query_mode_of driver get_id other gs
unfolding request_mode_of query_mode_of request_mode query_clock_mode
request_mode_of-other driver get_id id other mode [] n = refl
request_mode_of-other driver get_id id other mode (g ∷ gs) n =
    ground (arith, request_mode_of-other driver get_id id other mode gs n)

-- The id of the GPU at an index.
abbrev pub id_at : List ClockGpuDetails → ℕ → Option ℕ
id_at [] index = none
id_at (g ∷ gs) zero = some g.gpu_id
id_at (g ∷ gs) (suc index) = id_at gs index

abbrev HasId : Option ClockGpuDetails → Option ℕ → Type 0
HasId none i = i ≡ none
HasId (some g) i = i ≡ some g.gpu_id

id_at-HasId : (gs : List ClockGpuDetails) (index : ℕ) → HasId (get_elem? gs index) (id_at gs index)
id_at-HasId [] index = refl
id_at-HasId (g ∷ gs) zero = refl
id_at-HasId (g ∷ gs) (suc index) = id_at-HasId gs index

set_found-query :
    (driver : ClocksDriver) (get_id : Bytes → ℕ) (mode : ℕ) (m : ClocksManager)
    (g : Option ClockGpuDetails)
    → (set_found driver get_id mode m g).0 ≡ CaptureResult.success
    → query_found driver get_id (set_found driver get_id mode m g).1 g
      ≡ (CaptureResult.success, some mode)
unfolding set_found query_found request_gpu_mode
set_found-query driver get_id mode m none h = cc
set_found-query driver get_id mode m (some g) h =
    ground (arith, request_mode_of-query driver get_id g.gpu_id mode m.updatable_gpus)

set_found-other :
    (driver : ClocksDriver) (get_id : Bytes → ℕ) (mode : ℕ) (m : ClocksManager)
    (g k : Option ClockGpuDetails) (i j : Option ℕ)
    → HasId g i
    → HasId k j
    → j ≢ i
    → query_found driver get_id (set_found driver get_id mode m g).1 k
      ≡ query_found driver get_id m k
unfolding set_found query_found request_gpu_mode
set_found-other driver get_id mode m none k i j hi hj n = refl
set_found-other driver get_id mode m (some g) none i j hi hj n = refl
set_found-other driver get_id mode m (some g) (some k) i j hi hj n =
    let differ : k.gpu_id ≢ g.gpu_id = λ e. n (hj ∙ ap (λ x. some x) e ∙ sym hi) in
    ground
      (arith, request_mode_of-other driver get_id g.gpu_id k.gpu_id mode m.updatable_gpus differ)

-- A call of `SetCurrentGpuClockMode` that succeeds sets the mode: the next
-- `QueryGpuCurrentClockMode` of that index succeeds and gives it. At an index of a GPU with another
-- id, or of none, the query answers as it did before.
pub set_current_gpu_clock_mode-query :
    (driver : ClocksDriver) (get_id : Bytes → ℕ) (gpus : List ClockGpuDetails)
    (index mode other : ℕ) (m : ClocksManager)
    → (set_current_gpu_clock_mode driver get_id gpus index mode m).0 ≡ CaptureResult.success
    → id_at gpus other ≢ id_at gpus index
    → let after = (set_current_gpu_clock_mode driver get_id gpus index mode m).1 in
      (query_gpu_current_clock_mode driver get_id gpus index after
        ≡ (CaptureResult.success, some mode))
      × (query_gpu_current_clock_mode driver get_id gpus other after
          ≡ query_gpu_current_clock_mode driver get_id gpus other m)
unfolding set_current_gpu_clock_mode query_gpu_current_clock_mode
set_current_gpu_clock_mode-query driver get_id gpus index mode other m h n = (
  set_found-query driver get_id mode m (get_elem? gpus index) h,
  set_found-other driver get_id mode m (get_elem? gpus index) (get_elem? gpus other)
      (id_at gpus index) (id_at gpus other) (id_at-HasId gpus index) (id_at-HasId gpus other) n,
)
