-- ===== src/Trace/Clocks/Manager.antt =====
-- `DeviceClocksManager` of source/trace/src/device_clocks.cpp. Each function holds the mutex, so it is
-- one step. `GetId` of a GPU, the hash of its name, is a parameter. An update of the overlay is the
-- list of the names and modes that it inserts.
use radeon_developer_panel.Common.{
  ℕ, Bool, true, false, not, List, [], ◌∷◌, map, Option, none, some, ◌==◌, if◌then◌else◌, Bytes,
  insert_id, erase_id,
}
use radeon_developer_panel.Trace.Clocks.Gpu.{
  Gpu, ClocksDriver, mode_unknown, query_clock_mode, request_mode, set_force_peak,
}

pub record ClocksManager : Type 0 where
  pub updatable_gpus : List Gpu
  pub force_peak_ids : List ℕ

abbrev pub Overlay : Type 0
Overlay = List (Bytes × ℕ)

unfoldable pub overlay_modes : ClocksDriver → List Gpu → Overlay
unfolding query_clock_mode
overlay_modes driver gpus = map (λ g. (g.gpu_name, query_clock_mode driver g)) gpus

abbrev pub is_empty : List ℕ → Bool
is_empty [] = true
is_empty (i ∷ is) = false

unfoldable pub query_mode_of : ClocksDriver → (Bytes → ℕ) → ℕ → List Gpu → ℕ
unfolding query_clock_mode
query_mode_of driver get_id id [] = mode_unknown
query_mode_of driver get_id id (g ∷ gs) =
    if get_id g.gpu_name == id then query_clock_mode driver g else query_mode_of driver get_id id gs

abbrev cons_gpu : Gpu → Bool × List Gpu → Bool × List Gpu
cons_gpu g (result, gs) = (result, g ∷ gs)

-- The loop of `RequestMode`.
unfoldable pub request_mode_of : ClocksDriver → (Bytes → ℕ) → ℕ → ℕ → List Gpu → Bool × List Gpu
unfolding request_mode
request_mode_of driver get_id id mode [] = (false, [])
request_mode_of driver get_id id mode (g ∷ gs) =
    let (result, h) = request_mode driver mode g in
    if get_id g.gpu_name == id
    then (result, h ∷ gs)
    else cons_gpu g (request_mode_of driver get_id id mode gs)

-- `RequestMode`, with the update of the overlay that it makes.
unfoldable pub request_gpu_mode :
    ClocksDriver → (Bytes → ℕ) → ℕ → ℕ → ClocksManager → Bool × ClocksManager × Option Overlay
unfolding request_mode_of overlay_modes
request_gpu_mode driver get_id id mode m =
    let (result, gpus) = request_mode_of driver get_id id mode m.updatable_gpus in
    if not (is_empty m.force_peak_ids) then (false, m, none) else (
      result,
      record m { updatable_gpus = gpus },
      if result then some (overlay_modes driver gpus) else none,
    )

abbrev pub then_all : Gpu → (Bool × List Gpu) → List Gpu → Bool → Bool × List Gpu
then_all h rest gs true = (rest.0, h ∷ rest.1)
then_all h rest gs false = (false, h ∷ gs)

-- `all_of`, which stops at the first GPU that fails.
unfoldable pub force_all : ClocksDriver → Bool → List Gpu → Bool × List Gpu
unfolding set_force_peak
force_all driver force [] = (true, [])
force_all driver force (g ∷ gs) =
    then_all (set_force_peak driver force g).1 (force_all driver force gs) gs
      (set_force_peak driver force g).0

unfoldable pub changed_ids : ℕ → Bool → List ℕ → List ℕ
unfolding insert_id erase_id
changed_ids id force ids = if not force then erase_id id ids else insert_id id ids

abbrev pub same_bool : Bool → Bool → Bool
same_bool a b = if a then b else not b

-- `SetForcePeak` of the manager, with the update of the overlay that it makes.
unfoldable pub set_force_peak_of :
    ClocksDriver → ℕ → Bool → ClocksManager → Bool × ClocksManager × Option Overlay
unfolding force_all changed_ids overlay_modes
set_force_peak_of driver id force m =
    let ids = changed_ids id force m.force_peak_ids in
    let (result, gpus) = force_all driver (not (is_empty ids)) m.updatable_gpus in
    if same_bool (is_empty ids) (is_empty m.force_peak_ids)
    then (true, record m { force_peak_ids = ids }, none)
    else (
      result,
      record m { force_peak_ids = ids; updatable_gpus = gpus },
      some (overlay_modes driver gpus),
    )
