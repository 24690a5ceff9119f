-- ===== src/Trace/Source/Built.antt =====
-- The status that `BuildCurrentStatus` (source/trace/src/base_trace_source/base_trace_source.inl) builds of
-- the clients.
use radeon_developer_panel.Common.{
  ◌≤◌, ◌≡◌, refl, subst, ap, ◌∙◌, Bool, true, false, ◌&&◌, ◌||◌, List, [], ◌∷◌, Option, none, some,
  arith, ltb, Bool-cases, All, ◌⊎◌, inl, inr,
}
use radeon_developer_panel.Trace.Connections.Manager.{ClientConnection}
use radeon_developer_panel.Trace.Status.{
  DisabledReason, Stage, Status, is_enabled, IsConsistent, change_stage-IsConsistent, new_status,
  change_stage, same_stage,
}
use radeon_developer_panel.Trace.Source.Clients.{
  ClientState, BoundClient, state_index, max_state, client_state_to_stage,
}
use radeon_developer_panel.Trace.Source.State.{
  Source, highest_state, stage_of, get_trace_source_stage, is_state, all_disabled,
  build_current_status, process_connection, put_process, fill_process_info, fill_disabled_reason,
  fill_current_connections, fill_abort_supported, fill_client_reason,
}

highest_state-disabled :
    (state : ClientState) (cs : List BoundClient)
    → is_state (highest_state state cs) ClientState.disabled
      ≡ (is_state state ClientState.disabled && all_disabled cs)
unfolding highest_state all_disabled
highest_state-disabled state [] = ground arith
highest_state-disabled state (c ∷ cs) =
    ground (arith, highest_state-disabled (max_state state c.state) cs)

stage-disabled :
    (state : ClientState)
    → same_stage (client_state_to_stage state) Stage.disabled ≡ is_state state ClientState.disabled
unfolding client_state_to_stage
stage-disabled state = ground arith

fill_client_reason-IsConsistent :
    (why : DisabledReason) (cs : List BoundClient) (unsupported : List ClientConnection)
    (status : Status)
    → is_enabled why ≡ false
    → status.trace_stage ≡ stage_of cs unsupported
    → IsConsistent status
    → IsConsistent (fill_client_reason why cs unsupported status)
unfolding fill_client_reason stage_of
fill_client_reason-IsConsistent why [] [] status w e h = h
fill_client_reason-IsConsistent why [] (c ∷ cs) status w e h = (rw e refl, h.1)
fill_client_reason-IsConsistent why (c ∷ cs) unsupported status w e h =
    let stage =
      ap (λ s. same_stage s Stage.disabled) e
      ∙ stage-disabled (highest_state c.state cs)
      ∙ highest_state-disabled c.state cs in
    elim (Bool-cases (all_disabled (c ∷ cs))) [
      | inl all ↦ rw all (ground (arith, w, stage, all), h.1)
      | inr some' ↦ rw some' h
    ]

-- Only the reason is filled in.
abbrev pub with_reason : DisabledReason → Status → Status
with_reason why status = record status { disabled_reason = why }

fill_client_reason_lem :
    (why : DisabledReason) (cs : List BoundClient) (unsupported : List ClientConnection)
    (status : Status)
    → fill_client_reason why cs unsupported status
      ≡ with_reason (fill_client_reason why cs unsupported status).disabled_reason status
unfolding fill_client_reason
fill_client_reason_lem why [] [] status = refl
fill_client_reason_lem why [] (c ∷ cs) status = refl
fill_client_reason_lem why (c ∷ cs) unsupported status = elim (Bool-cases (all_disabled (c ∷ cs))) [
  | inl e ↦ rw e
  | inr e ↦ rw e
]

pub fill_disabled_reason_lem :
    (s : Source) (status : Status)
    → fill_disabled_reason s status
      ≡ with_reason (fill_disabled_reason s status).disabled_reason status
unfolding fill_disabled_reason
fill_disabled_reason_lem s status = elim (Bool-cases (is_enabled s.system_disabled_reason)) [
  | inl e ↦
      rw e (fill_client_reason_lem s.client_disabled_reason s.clients s.unsupported_clients status)
  | inr e ↦ rw e
]

put_process-IsConsistent :
    (found : Option ClientConnection) (status : Status)
    → IsConsistent status
    → IsConsistent (put_process found status)
      × ((put_process found status).trace_stage ≡ status.trace_stage)
put_process-IsConsistent none status h = (h, refl)
put_process-IsConsistent (some c) status h = (h, refl)

-- Where the system is not disabled and clients that are all disabled have a reason: a status that
-- is built has a reason for being disabled exactly in the disabled stage, and counts no bytes
-- outside the dumping stage.
pub build_current_status-IsConsistent :
    (s : Source)
    → is_enabled s.system_disabled_reason ≡ true
    → is_enabled s.client_disabled_reason ≡ false
    → IsConsistent (build_current_status s)
unfolding build_current_status fill_process_info fill_disabled_reason fill_current_connections
    fill_abort_supported
build_current_status-IsConsistent s e w =
    let stage = get_trace_source_stage s in
    let found = process_connection s.clients s.unsupported_clients s.pending_clients in
    let (c, k) =
      put_process-IsConsistent found (change_stage stage new_status)
        (change_stage-IsConsistent stage new_status (refl, λ _. (refl, refl))) in
    let h =
      fill_client_reason-IsConsistent s.client_disabled_reason s.clients s.unsupported_clients
        (put_process found (change_stage stage new_status)) w k c in
    rw e h

abbrev pub has_state : ClientState → List BoundClient → Bool
has_state state [] = false
has_state state (c ∷ cs) = is_state c.state state || has_state state cs

highest_state-highest :
    (state : ClientState) (cs : List BoundClient)
    → (state_index state ≤ state_index (highest_state state cs))
      × All (λ d. state_index d.state ≤ state_index (highest_state state cs)) cs
unfolding highest_state
highest_state-highest state [] = (omega arith, tt)
highest_state-highest state (c ∷ cs) =
    let h = highest_state-highest (max_state state c.state) cs in
    (ground (arith, h.0), (ground (arith, h.0), h.1))

or_right : (a b : Bool) → b ≡ true → (a || b) ≡ true
or_right true b h = refl
or_right false b h = h

or_middle : (a b c : Bool) → (a || c) ≡ true → (a || (b || c)) ≡ true
or_middle true b c h = refl
or_middle false b c h = or_right b c h

max_state-cases : (a b : ClientState) → (max_state a b ≡ a) ⊎ (max_state a b ≡ b)
max_state-cases a b = elim (Bool-cases (ltb (state_index a) (state_index b))) [
  | inl e ↦ inr (rw e)
  | inr e ↦ inl (rw e)
]

has_state-cons :
    (a b m top : ClientState) (cs : List BoundClient)
    → (m ≡ a) ⊎ (m ≡ b)
    → (is_state m top || has_state top cs) ≡ true
    → (is_state a top || (is_state b top || has_state top cs)) ≡ true
has_state-cons a b m top cs (inl e) h =
    or_middle (is_state a top) (is_state b top) (has_state top cs)
      (subst (λ x. (is_state x top || has_state top cs) ≡ true) e h)
has_state-cons a b m top cs (inr e) h =
    or_right (is_state a top) (is_state b top || has_state top cs)
      (subst (λ x. (is_state x top || has_state top cs) ≡ true) e h)

highest_state-has_state :
    (state : ClientState) (cs : List BoundClient)
    → (is_state state (highest_state state cs) || has_state (highest_state state cs) cs) ≡ true
unfolding highest_state
highest_state-has_state state [] = ground arith
highest_state-has_state state (c ∷ cs) =
    has_state-cons state c.state (max_state state c.state)
      (highest_state (max_state state c.state) cs) cs (max_state-cases state c.state)
      (highest_state-has_state (max_state state c.state) cs)

-- Where there are clients, the stage is that of the state of one of them, and no client's state is
-- higher in the order of the states.
pub get_trace_source_stage-highest :
    (s : Source) (c : BoundClient) (cs : List BoundClient)
    → s.clients ≡ c ∷ cs
    → (top : ClientState) × (get_trace_source_stage s ≡ client_state_to_stage top)
      × (has_state top (c ∷ cs) ≡ true)
      × All (λ d. state_index d.state ≤ state_index top) (c ∷ cs)
unfolding get_trace_source_stage stage_of
get_trace_source_stage-highest s c cs e = (
  highest_state c.state cs,
  ap (λ ds. stage_of ds s.unsupported_clients) e,
  highest_state-has_state c.state cs,
  highest_state-highest c.state cs,
)
