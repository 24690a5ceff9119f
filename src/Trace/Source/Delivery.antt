-- ===== src/Trace/Source/Delivery.antt =====
-- What the reporting threads of `BaseTraceSource`
-- (source/trace/src/base_trace_source/base_trace_source.inl) deliver: every event, in order, before they end.
use mathlib.Core.List.{append_assoc, append-nil}
use radeon_developer_panel.Common.{
  ℕ, suc, ◌≤◌, ◌≡◌, ◌≢◌, refl, ap, sym, subst, ◌∙◌, Bool, true, false, List, [], ◌∷◌, ◌++◌, some,
  arith, count_id, count_id-append_one, ◌==◌, if◌then◌else◌,
}
use radeon_developer_panel.Trace.Source.Reporting.{
  Thread, waits, holds, ended, Reporter, call_all, advance, advance_at, Step, pushes, registers,
  exits, acts, Reach, here, later, run_thread,
}

module _ {Event : Type 0} where
  abbrev pub held : Thread Event → List Event
  held waits = []
  held (holds e) = e ∷ []
  held ended = []

  -- The events with which the callback of a listener was called.
  abbrev pub received : ℕ → List (ℕ × Event) → List Event
  received l [] = []
  received l ((k, e) ∷ ds) = if k == l then e ∷ received l ds else received l ds

  received-append :
      (l : ℕ) (ds es : List (ℕ × Event)) → received l (ds ++ es) ≡ received l ds ++ received l es
  received-append l [] es = refl
  received-append l ((k, e) ∷ ds) es = ground (arith, received-append l ds es)

  received-none :
      (l : ℕ) (ls : List ℕ) (e : Event) → count_id ls l ≡ 0 → received l (call_all ls e) ≡ []
  received-none l [] e h = refl
  received-none l (k ∷ ls) e h = ground (arith, received-none l ls e)

  received-one :
      (l : ℕ) (ls : List ℕ) (e : Event) → count_id ls l ≡ 1 → received l (call_all ls e) ≡ e ∷ []
  received-one l [] e h = absurd (omega arith)
  received-one l (k ∷ ls) e h = ground (arith, received-none l ls e, received-one l ls e)

  -- What the listener got, what the thread holds and what waits are the events that were pushed.
  abbrev pub IsOrdered : ℕ → Reporter Event → Type 0
  IsOrdered l r = received l r.delivered ++ (held r.thread ++ r.queue) ≡ r.pushed

  advance_at-IsOrdered :
      (l : ℕ) (t : Thread Event) (queue : List Event) (exit : Bool) (r r' : Reporter Event)
      → count_id r.listeners l ≡ 1
      → advance_at t queue exit r ≡ some r'
      → r.thread ≡ t
      → r.queue ≡ queue
      → IsOrdered l r
      → IsOrdered l r'
  advance_at-IsOrdered l ended queue exit r r' c e t q h = cc
  advance_at-IsOrdered l (holds x) queue exit r r' c e t q h =
      let p : record r { thread = waits; delivered = r.delivered ++ call_all r.listeners x } ≡ r' =
        cc in
      let h' = subst (λ th. received l r.delivered ++ (held th ++ r.queue) ≡ r.pushed) t h in
      subst (IsOrdered l) p (
        rw
          (
            received-append l r.delivered (call_all r.listeners x),
            received-one l r.listeners x c,
            append_assoc,
          )
          h')
  advance_at-IsOrdered l waits (x ∷ xs) exit r r' c e t q h =
      let p : record r { queue = xs; thread = holds x } ≡ r' = cc in
      let h' = subst (λ th. received l r.delivered ++ (held th ++ r.queue) ≡ r.pushed) t h in
      subst (IsOrdered l) p (subst (λ es. received l r.delivered ++ es ≡ r.pushed) q h')
  advance_at-IsOrdered l waits [] true r r' c e t q h =
      let p : record r { thread = ended } ≡ r' = cc in
      let h' = subst (λ th. received l r.delivered ++ (held th ++ r.queue) ≡ r.pushed) t h in
      subst (IsOrdered l) p h'
  advance_at-IsOrdered l waits [] false r r' c e t q h = cc

  advance_at-listeners :
      (t : Thread Event) (queue : List Event) (exit : Bool) (r r' : Reporter Event)
      → advance_at t queue exit r ≡ some r'
      → r.listeners ≡ r'.listeners
  advance_at-listeners ended queue exit r r' e = cc
  advance_at-listeners (holds x) queue exit r r' e = cc
  advance_at-listeners waits (x ∷ xs) exit r r' e = cc
  advance_at-listeners waits [] true r r' e = cc
  advance_at-listeners waits [] false r r' e = cc

  abbrev NoFewer : ℕ → Reporter Event → Reporter Event → Type 0
  NoFewer l r s = count_id r.listeners l ≤ count_id s.listeners l

  Step-le : {r s : Reporter Event} (l : ℕ) → Step r s → NoFewer l r s
  unfolding advance
  Step-le l (pushes r e) = omega arith
  Step-le l (registers r k) = omega (arith, count_id-append_one r.listeners k l)
  Step-le l (exits r) = omega arith
  Step-le l (acts r r' e) =
      omega (arith, ap (λ ls. count_id ls l) (advance_at-listeners r.thread r.queue r.exit r r' e))

  Reach-le : {r s : Reporter Event} (l : ℕ) → Reach r s → NoFewer l r s
  Reach-le l here = omega arith
  Reach-le l (later p q) = omega (arith, Reach-le l p, Step-le l q)

  Step-IsOrdered :
      {r s : Reporter Event} (l : ℕ)
      → Step r s
      → count_id r.listeners l ≡ 1
      → IsOrdered l r
      → IsOrdered l s
  unfolding advance
  Step-IsOrdered l (pushes r e) c h =
      rw
        (
          ← append_assoc (held r.thread) r.queue (e ∷ []),
          ← append_assoc (received l r.delivered) (held r.thread ++ r.queue) (e ∷ []),
        )
        (ap (λ es. es ++ e ∷ []) h)
  Step-IsOrdered l (registers r k) c h = h
  Step-IsOrdered l (exits r) c h = h
  Step-IsOrdered l (acts r r' e) c h =
      advance_at-IsOrdered l r.thread r.queue r.exit r r' c e refl refl h

  -- Whatever the other threads do between the steps of a reporting thread: a listener that is
  -- registered before the first event, and once, gets the events in the order in which they are
  -- pushed, each once; what it has not got is what the thread holds and what waits in the queue.
  pub Reach-IsOrdered :
      (l : ℕ) (r : Reporter Event) {s : Reporter Event}
      → Reach r s
      → IsOrdered l r
      → count_id r.listeners l ≡ 1
      → count_id s.listeners l ≡ 1
      → received l s.delivered ++ (held s.thread ++ s.queue) ≡ s.pushed
  Reach-IsOrdered l r here h b c = h
  Reach-IsOrdered l r (later {s} p q) h b c =
      let c' : count_id s.listeners l ≡ 1 = omega (arith, Reach-le l p, Step-le l q) in
      Step-IsOrdered l q c' (Reach-IsOrdered l r p h b c')

  -- The calls of the callbacks for several events.
  abbrev pub call_each : List ℕ → List Event → List (ℕ × Event)
  call_each ls [] = []
  call_each ls (e ∷ es) = call_all ls e ++ call_each ls es

  -- Two steps for each event, and one to end.
  abbrev pub steps_for : List Event → ℕ
  steps_for [] = 1
  steps_for (e ∷ es) = suc (suc (steps_for es))

  abbrev pub steps_left : Thread Event → List Event → ℕ
  steps_left waits queue = steps_for queue
  steps_left (holds e) queue = suc (steps_for queue)
  steps_left ended queue = 0

  abbrev told_to_exit : Thread Event → List Event → Reporter Event → Reporter Event
  told_to_exit t queue r = record r { thread = t; queue = queue; exit = true }

  abbrev with_calls : List (ℕ × Event) → Reporter Event → Reporter Event
  with_calls ds r = record r { thread = ended; queue = []; exit = true; delivered = ds }

  run_thread-waits :
      (queue : List Event) (r : Reporter Event)
      → run_thread (steps_for queue) (told_to_exit waits queue r)
        ≡ with_calls (r.delivered ++ call_each r.listeners queue) r
  unfolding run_thread advance
  run_thread-waits [] r = ap (λ ds. with_calls ds r) (sym (append-nil r.delivered))
  run_thread-waits (e ∷ es) r =
      let r' = record r { delivered = r.delivered ++ call_all r.listeners e } in
      run_thread-waits es r'
      ∙ ap (λ ds. with_calls ds r)
          (append_assoc r.delivered (call_all r.listeners e) (call_each r.listeners es))

  run_thread-exit :
      (t : Thread Event) (queue : List Event) (r : Reporter Event)
      → t ≢ ended
      → run_thread (steps_left t queue) (told_to_exit t queue r)
        ≡ with_calls (r.delivered ++ call_each r.listeners (held t ++ queue)) r
  unfolding run_thread advance
  run_thread-exit waits queue r n = run_thread-waits queue r
  run_thread-exit (holds e) queue r n =
      let r' = record r { delivered = r.delivered ++ call_all r.listeners e } in
      run_thread-waits queue r'
      ∙ ap (λ ds. with_calls ds r)
          (append_assoc r.delivered (call_all r.listeners e) (call_each r.listeners queue))
  run_thread-exit ended queue r n = absurd (n refl)

  -- Once it is told to exit, a thread that has not ended does so within two steps for each event that
  -- waits and two more, and before that it has called every listener for the event that it holds
  -- and for every event that waits, in their order.
  pub run_thread-ended :
      (r : Reporter Event)
      → r.exit ≡ true
      → r.thread ≢ ended
      → let after = run_thread (steps_left r.thread r.queue) r in
        (after.thread ≡ ended)
        × (after.queue ≡ [])
        × (after.delivered ≡ r.delivered ++ call_each r.listeners (held r.thread ++ r.queue))
  run_thread-ended r e n =
      let same : told_to_exit r.thread r.queue r ≡ r = ap (λ b. record r { exit = b }) (sym e) in
      let h =
        ap (run_thread (steps_left r.thread r.queue)) (sym same)
        ∙ run_thread-exit r.thread r.queue r n in
      (ap (λ s. s.thread) h, ap (λ s. s.queue) h, ap (λ s. s.delivered) h)
