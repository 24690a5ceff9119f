-- ===== src/Trace/Clocks/Peak.antt =====
-- What sequences of calls of `DeviceClocksManager::SetForcePeak`
-- (source/trace/src/device_clocks.cpp) do to the clocks.
use radeon_developer_panel.Common.{
  ℕ, ◌≡◌, refl, Bool, true, false, not, List, [], ◌∷◌, map, none, some, if◌then◌else◌, arith, All,
}
use radeon_developer_panel.Trace.Clocks.Gpu.{Gpu, ClocksDriver, mode_peak, has_mode, set_force_peak}
use radeon_developer_panel.Trace.Clocks.Manager.{
  ClocksManager, is_empty, force_all, changed_ids, set_force_peak_of, same_bool,
}

-- Calls of `SetForcePeak`, one after the other.
abbrev pub run : ClocksDriver → List (ℕ × Bool) → ClocksManager → ClocksManager
run driver [] m = m
run driver (c ∷ cs) m = run driver cs (set_force_peak_of driver c.0 c.1 m).1

-- Every call of the driver succeeds.
abbrev pub Obeys : ClocksDriver → Type 0
Obeys driver = ((id mode : ℕ) → driver.sets id mode ≡ true) × ((id : ℕ) → driver.answers id ≡ true)

-- A GPU at its peak mode, which keeps the mode to go back to; one without a peak mode is left.
unfoldable pub at_peak : Gpu → Gpu
at_peak g =
    if has_mode mode_peak g.clock_modes
    then record g { cached_mode = some g.driver_mode; driver_mode = mode_peak }
    else g

abbrev pub HasNoCache : Gpu → Type 0
HasNoCache g = g.cached_mode ≡ none

set_force_peak-true :
    (driver : ClocksDriver) (g : Gpu)
    → Obeys driver
    → set_force_peak driver true g ≡ (true, at_peak g)
unfolding set_force_peak at_peak
set_force_peak-true driver g k = ground (arith, k.0 g.gpu_id mode_peak, k.1 g.gpu_id)

set_force_peak-false :
    (driver : ClocksDriver) (g : Gpu)
    → Obeys driver
    → HasNoCache g
    → set_force_peak driver false (at_peak g) ≡ (true, g)
unfolding set_force_peak at_peak
set_force_peak-false driver g k h = ground (arith, h, k.0 g.gpu_id g.driver_mode, k.1 g.gpu_id)

force_all-true :
    (driver : ClocksDriver) (gs : List Gpu)
    → Obeys driver
    → force_all driver true gs ≡ (true, map at_peak gs)
unfolding force_all
force_all-true driver [] k = refl
force_all-true driver (g ∷ gs) k = rw (set_force_peak-true driver g k, force_all-true driver gs k)

force_all-false :
    (driver : ClocksDriver) (gs : List Gpu)
    → Obeys driver
    → All HasNoCache gs
    → force_all driver false (map at_peak gs) ≡ (true, gs)
unfolding force_all
force_all-false driver [] k h = refl
force_all-false driver (g ∷ gs) k h =
    rw (set_force_peak-false driver g k h.0, force_all-false driver gs k h.1)

-- The clocks that a manager leaves: as they were where nothing forces the peak mode, and else at
-- their peak.
abbrev pub clocks_of : List ℕ → List Gpu → List Gpu
clocks_of ids gs = if is_empty ids then gs else map at_peak gs

force_all-change :
    (driver : ClocksDriver) (gs gpus : List Gpu) (now was : Bool)
    → Obeys driver
    → All HasNoCache gs
    → gpus ≡ (if was then gs else map at_peak gs)
    → same_bool now was ≡ false
    → force_all driver (not now) gpus ≡ (true, if now then gs else map at_peak gs)
force_all-change driver gs gpus true true k h e d = cc
force_all-change driver gs gpus false false k h e d = cc
force_all-change driver gs gpus true false k h e d = rw e (force_all-false driver gs k h)
force_all-change driver gs gpus false true k h e d = rw e (force_all-true driver gs k)

same_bool→eq : (a b : Bool) → same_bool a b ≡ true → a ≡ b
same_bool→eq a b h = ground arith

set_force_peak_of-clocks :
    (driver : ClocksDriver) (id : ℕ) (force : Bool) (gs : List Gpu) (m : ClocksManager)
    → Obeys driver
    → All HasNoCache gs
    → m.updatable_gpus ≡ clocks_of m.force_peak_ids gs
    → let after = set_force_peak_of driver id force m in
      (after.0 ≡ true) × (after.1.updatable_gpus ≡ clocks_of after.1.force_peak_ids gs)
unfolding set_force_peak_of
set_force_peak_of-clocks driver id force gs m k h e =
    let ids = changed_ids id force m.force_peak_ids in
    ground (
      arith,
      e,
      same_bool→eq (is_empty ids) (is_empty m.force_peak_ids),
      force_all-change driver gs m.updatable_gpus (is_empty ids) (is_empty m.force_peak_ids) k h e,
    )

pub run-clocks :
    (driver : ClocksDriver) (cs : List (ℕ × Bool)) (gs : List Gpu) (m : ClocksManager)
    → Obeys driver
    → All HasNoCache gs
    → m.updatable_gpus ≡ clocks_of m.force_peak_ids gs
    → (run driver cs m).updatable_gpus ≡ clocks_of (run driver cs m).force_peak_ids gs
run-clocks driver [] gs m k h e = e
run-clocks driver (c ∷ cs) gs m k h e =
    run-clocks driver cs gs (set_force_peak_of driver c.0 c.1 m).1 k h
      (set_force_peak_of-clocks driver c.0 c.1 gs m k h e).1
