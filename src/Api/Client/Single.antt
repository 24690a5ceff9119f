-- ===== src/Api/Client/Single.antt =====
-- `ClientManager` (source/api/client_manager.cpp) lets in one process at a time, where every
-- connection follows the check of its filter before the next event.
use radeon_developer_panel.Common.{
  insert_id, erase_id, ℕ, ◌≤◌, ◌≡◌, refl, false, List, [], ◌∷◌, if◌then◌else◌, arith, ◌↔◌, ◌≢◌, All,
  Bool-cases, inl, inr, ◌⊎◌, sym, subst,
}
use radeon_developer_panel.Trace.Connections.Manager.{ConnectionInfo}
use radeon_developer_panel.Api.Client.Manager.{
  Client, ClientManager, clear_process, new_client_manager, convert, on_driver_connected,
  on_driver_disconnected, should_client_be_ignored, is_blocked, is_filtered,
}
use radeon_developer_panel.Api.Client.Owned.{
  remove_owner, Owned, has_id-insert_id, Owned-insert_id, Owned-erase_id, Owned-no_id,
  Owned-no_process,
}

pub data Event : Type 0 where
  arrived : ConnectionInfo → Event
  left : ℕ → Event

-- The manager with the connections that were let in: their ids, and the ids of their processes.
abbrev pub System : Type 0
System = ClientManager × List (ℕ × ℕ)

-- The router connects a client if the filter does not ignore it.
abbrev pub serve : Client → Event → System → System
serve client (arrived info) (m, owners) =
    if (should_client_be_ignored client info m).0
    then (m, owners)
    else (on_driver_connected client info m, (info.umd_connection_id, info.process_id) ∷ owners)
serve client (left i) (m, owners) = (on_driver_disconnected i m, remove_owner i owners)

abbrev pub serve_all : Client → List Event → System → System
serve_all client [] s = s
serve_all client (e ∷ es) s = serve_all client es (serve client e s)

-- No client is process 0.
abbrev pub HasProcess : Event → Type 0
HasProcess (arrived info) = 1 ≤ info.process_id
HasProcess (left i) = Unit

-- The connections that were let in are kept and belong to the current process, and no process is
-- current exactly where nothing is connected.
abbrev IsSingle : System → Type 0
IsSingle (m, owners) =
    Owned m.current_umd_connections m.current_process.process_id owners
    × ((m.current_process.process_id ≡ 0) ↔ (m.current_umd_connections ≡ []))

clear_process-IsSingle :
    (m : ClientManager) (ids : List ℕ) (os : List (ℕ × ℕ))
    → Owned ids m.current_process.process_id os
    → (m.current_process.process_id ≡ 0 → ids ≡ [])
    → IsSingle (clear_process m ids, os)
clear_process-IsSingle m [] os h k =
    (Owned-no_id m.current_process.process_id 0 os h, (λ _. refl, λ _. refl))
clear_process-IsSingle m (i ∷ ids) os h k = (h, (k, λ e. cc))

on_driver_disconnected-IsSingle :
    (i : ℕ) (s : System) → IsSingle s → IsSingle (on_driver_disconnected i s.0, remove_owner i s.1)
unfolding on_driver_disconnected erase_id
on_driver_disconnected-IsSingle i (m, owners) h =
    clear_process-IsSingle m (erase_id i m.current_umd_connections) (remove_owner i owners)
      (Owned-erase_id i m.current_process.process_id m.current_umd_connections owners h.0)
      (λ e. rw (h.1.0 e) refl)

insert_id-nonempty : (i : ℕ) (ids : List ℕ) → insert_id i ids ≢ []
unfolding insert_id
insert_id-nonempty i [] = λ e. cc
insert_id-nonempty i (j ∷ ids) = λ e. ground arith

convert-process_id :
    (client : Client) (info : ConnectionInfo) → (convert client info).process_id ≡ info.process_id
unfolding convert
convert-process_id client info = ground arith

-- A client that is not ignored meets no process, or its own.
accepted-process_id :
    (client : Client) (info : ConnectionInfo) (m : ClientManager)
    → (should_client_be_ignored client info m).0 ≡ false
    → (m.current_process.process_id ≡ 0) ⊎ (m.current_process.process_id ≡ info.process_id)
unfolding should_client_be_ignored
accepted-process_id client info m h = ground arith

connected-process_id :
    (client : Client) (info : ConnectionInfo) (m : ClientManager)
    → (m.current_process.process_id ≡ 0) ⊎ (m.current_process.process_id ≡ info.process_id)
    → (on_driver_connected client info m).current_process.process_id ≡ info.process_id
unfolding on_driver_connected
connected-process_id client info m h = ground (arith, convert-process_id client info)

Owned-process :
    (p q : ℕ) (ids : List ℕ) (os : List (ℕ × ℕ))
    → (p ≡ 0) ⊎ (p ≡ q)
    → Owned ids p os
    → Owned ids q os
Owned-process p q ids os (inl e) h = Owned-no_process q ids os (subst (λ x. Owned ids x os) e h)
Owned-process p q ids os (inr e) h = subst (λ x. Owned ids x os) e h

on_driver_connected-IsSingle :
    (client : Client) (info : ConnectionInfo) (s : System)
    → 1 ≤ info.process_id
    → (should_client_be_ignored client info s.0).0 ≡ false
    → IsSingle s
    → IsSingle
        (on_driver_connected client info s.0, (info.umd_connection_id, info.process_id) ∷ s.1)
unfolding on_driver_connected
on_driver_connected-IsSingle client info (m, owners) p k h =
    let ids = m.current_umd_connections in
    let i = info.umd_connection_id in
    let a = accepted-process_id client info m k in
    let e = connected-process_id client info m a in
    let owned = Owned-process m.current_process.process_id info.process_id ids owners a h.0 in
    (
      (
        ground (arith, has_id-insert_id i i ids),
        sym e,
        p,
        subst (λ x. Owned (insert_id i ids) x owners) (sym e)
            (Owned-insert_id i info.process_id ids owners owned),
      ),
      (λ z. absurd (omega (arith, p, z, e)), λ z. absurd (insert_id-nonempty i ids z)),
    )

serve-IsSingle :
    (client : Client) (e : Event) (s : System)
    → HasProcess e
    → IsSingle s
    → IsSingle (serve client e s)
serve-IsSingle client (arrived info) s p h =
    elim (Bool-cases (should_client_be_ignored client info s.0).0) [
      | inl k ↦ rw k h
      | inr k ↦ rw k (on_driver_connected-IsSingle client info s p k h)
    ]
serve-IsSingle client (left i) s p h = on_driver_disconnected-IsSingle i s h

serve_all-IsSingle :
    (client : Client) (es : List Event) (s : System)
    → All HasProcess es
    → IsSingle s
    → IsSingle (serve_all client es s)
serve_all-IsSingle client [] s p h = h
serve_all-IsSingle client (e ∷ es) s p h =
    serve_all-IsSingle client es (serve client e s) p.1 (serve-IsSingle client e s p.0 h)

-- The system with no client.
abbrev pub new_system : System
new_system = (new_client_manager, [])

Owned→All : (ids : List ℕ) (p : ℕ) (os : List (ℕ × ℕ)) → Owned ids p os → All (λ o. o.1 ≡ p) os
Owned→All ids p [] h = tt
Owned→All ids p (o ∷ os) h = (h.1, Owned→All ids p os h.3)

-- After any sequence of arrivals and departures of clients, none of them process 0, where an arrival
-- is the check of the filter and at once the connection if it is let in: every connection that was
-- let in and has not left belongs to the current process.
pub serve_all-process_id :
    (client : Client) (es : List Event)
    → All HasProcess es
    → All
        (λ o. o.1 ≡ (serve_all client es new_system).0.current_process.process_id)
        (serve_all client es new_system).1
serve_all-process_id client es p =
    let s = serve_all client es new_system in
    Owned→All s.0.current_umd_connections s.0.current_process.process_id s.1
      (serve_all-IsSingle client es new_system p (tt, (λ _. refl, λ _. refl))).0

-- After any sequence of arrivals and departures of clients, none of them process 0, where an arrival
-- is the check of the filter and at once the connection if it is let in: the reported process id is
-- 0 exactly where there is no connection.
pub serve_all-is_idle :
    (client : Client) (es : List Event)
    → All HasProcess es
    → ((serve_all client es new_system).0.current_process.process_id ≡ 0)
      ↔ ((serve_all client es new_system).0.current_umd_connections ≡ [])
serve_all-is_idle client es p =
    (serve_all-IsSingle client es new_system p (tt, (λ _. refl, λ _. refl))).1

-- A client is let in exactly where no other process is current, the blocklist does not contain its
-- path, and the filter takes it or, without a filter, it is the running process.
pub should_client_be_ignored_iff :
    (client : Client) (info : ConnectionInfo) (m : ClientManager)
    → ((should_client_be_ignored client info m).0 ≡ false) ↔ (
        ((m.current_process.process_id ≡ 0) ⊎ (m.current_process.process_id ≡ info.process_id))
        × (is_blocked client (convert client info) ≡ false)
        × (is_filtered client info ≡ false))
unfolding should_client_be_ignored
should_client_be_ignored_iff client info m = ground arith
