-- ===== src/Api/Requests/Stages.antt =====
-- The stages that `TraceSourceAdapter` (source/api/trace_source_adapter.cpp) reports over a sequence of
-- status events.
use radeon_developer_panel.Common.{
  ◌≡◌, refl, true, false, not, List, [], ◌∷◌, Option, none, some, ◌==◌, if◌then◌else◌, arith,
  Bool-cases, inl, inr, subst,
}
use radeon_developer_panel.Trace.Status.{Status}
use radeon_developer_panel.Api.Data.{
  DetailedStage, get_detailed_capture_stage, coarse_stage, coarse_stage-get_detailed_capture_stage,
}
use radeon_developer_panel.Api.Requests.Events.{
  AdapterStatus, new_adapter_status, StatusCall, stage_number, on_trace_status_event,
}

abbrev pub cons_call : Option StatusCall → List StatusCall → List StatusCall
cons_call none calls = calls
cons_call (some c) calls = c ∷ calls

-- The calls of a callback that is set, over the events.
abbrev pub status_calls : List Status → AdapterStatus → List StatusCall
status_calls [] a = []
status_calls (s ∷ ss) a =
    cons_call (on_trace_status_event true s a).1
      (status_calls ss (on_trace_status_event true s a).0)

abbrev pub last_status : List Status → AdapterStatus → AdapterStatus
last_status [] a = a
last_status (s ∷ ss) a = last_status ss (on_trace_status_event true s a).0

-- Each call starts at the stage where the one before ended, and ends at another; the last one ends
-- at the given stage.
abbrev pub Chain : DetailedStage → List StatusCall → DetailedStage → Type 0
Chain from [] to = from ≡ to
Chain from (c ∷ cs) to =
    (c.old_stage ≡ from)
    × ((stage_number c.new_stage == stage_number c.old_stage) ≡ false)
    × Chain c.new_stage cs to

stage_number_injective : (s t : DetailedStage) → (stage_number s == stage_number t) ≡ true → s ≡ t
stage_number_injective s t h = ground arith

-- The stages of one event: either nothing is called and the stage stays, or the call is a step.
Chain-stage :
    (new old to : DetailedStage) (calls : List StatusCall)
    → Chain new calls to
    → Chain old
        (cons_call
          (if not (stage_number new == stage_number old)
            then some (record { new_stage = new; old_stage = old })
            else none)
          calls)
        to
Chain-stage new old to calls h = elim (Bool-cases (stage_number new == stage_number old)) [
  | inl e ↦ rw e (subst (λ x. Chain x calls to) (stage_number_injective new old e) h)
  | inr e ↦ rw e (refl, e, h)
]

-- Over any sequence of status events, the calls of a status callback form a chain without idle
-- steps from the stage that the adapter had to the one that it has.
pub status_calls-Chain :
    (ss : List Status) (a : AdapterStatus)
    → Chain a.current_detailed_stage (status_calls ss a) (last_status ss a).current_detailed_stage
unfolding on_trace_status_event
status_calls-Chain [] a = refl
status_calls-Chain (s ∷ ss) a =
    let after = (on_trace_status_event true s a).0 in
    Chain-stage (get_detailed_capture_stage s) a.current_detailed_stage
      (last_status ss after).current_detailed_stage (status_calls ss after)
      (status_calls-Chain ss after)

last_status-keeps :
    (ss : List Status) (a : AdapterStatus)
    → coarse_stage a.current_detailed_stage ≡ a.current_stage
    → coarse_stage (last_status ss a).current_detailed_stage ≡ (last_status ss a).current_stage
unfolding on_trace_status_event
last_status-keeps [] a h = h
last_status-keeps (s ∷ ss) a h =
    last_status-keeps ss (on_trace_status_event true s a).0
      (coarse_stage-get_detailed_capture_stage s)

-- A new adapter, and one after any sequence of status events, reports as its stage what its
-- detailed stage is part of.
pub last_status-coarse_stage :
    (ss : List Status)
    → let a = last_status ss new_adapter_status in
      coarse_stage a.current_detailed_stage ≡ a.current_stage
last_status-coarse_stage ss = last_status-keeps ss new_adapter_status refl
