-- ===== src/Trace/Source/Reporting.antt =====
-- The reporting threads of `BaseTraceSource`
-- (source/trace/src/base_trace_source/base_trace_source.inl): each takes the events of one queue and gives
-- them to the listeners. A step is what happens under one lock; a listener is its number, and the
-- callbacks of one event are called under the lock of the listeners.
use radeon_developer_panel.Common.{
  ℕ, zero, suc, ◌≡◌, Bool, true, false, List, [], ◌∷◌, ◌++◌, Option, none, some,
}

-- Where the thread stands: it waits, holds an event that it has taken, or has ended.
pub data Thread (Event : Type 0) : Type 0 where
  waits : Thread Event
  holds : Event → Thread Event
  ended : Thread Event

-- The calls of callbacks that were made, and the events that were pushed, are kept in their order.
pub record Reporter (Event : Type 0) : Type 0 where
  pub queue : List Event
  pub listeners : List ℕ
  pub exit : Bool
  pub thread : Thread Event
  pub delivered : List (ℕ × Event)
  pub pushed : List Event

abbrev pub new_reporter : (Event : Type 0) → Reporter Event
new_reporter Event = record {
  queue = [];
  listeners = [];
  exit = false;
  thread = waits;
  delivered = [];
  pushed = [];
}

module _ {Event : Type 0} where
  abbrev pub call_all : List ℕ → Event → List (ℕ × Event)
  call_all [] e = []
  call_all (l ∷ ls) e = (l, e) ∷ call_all ls e

  -- One step of the thread, if it need not wait: it ends only where no event is left.
  abbrev pub advance_at :
      Thread Event → List Event → Bool → Reporter Event → Option (Reporter Event)
  advance_at ended queue exit r = none
  advance_at (holds e) queue exit r =
      some (record r { thread = waits; delivered = r.delivered ++ call_all r.listeners e })
  advance_at waits (e ∷ es) exit r = some (record r { queue = es; thread = holds e })
  advance_at waits [] true r = some (record r { thread = ended })
  advance_at waits [] false r = none

  unfoldable pub advance : Reporter Event → Option (Reporter Event)
  advance r = advance_at r.thread r.queue r.exit r

  -- Any thread may push an event and add a listener with a callback; the destructor sets the exit.
  pub data Step : Reporter Event → Reporter Event → Type 0 where
    pushes :
        (r : Reporter Event) (e : Event)
        → Step r (record r { queue = r.queue ++ e ∷ []; pushed = r.pushed ++ e ∷ [] })
    registers :
        (r : Reporter Event) (l : ℕ) → Step r (record r { listeners = r.listeners ++ l ∷ [] })
    exits : (r : Reporter Event) → Step r (record r { exit = true })
    acts : (r r' : Reporter Event) → advance r ≡ some r' → Step r r'

  pub data Reach (r : Reporter Event) : Reporter Event → Type 0 where
    here : Reach r r
    later : {s t : Reporter Event} → Reach r s → Step s t → Reach r t

  -- The thread alone, for a number of steps at most.
  unfoldable pub run_thread : ℕ → Reporter Event → Reporter Event
  unfolding advance
  run_thread zero r = r
  run_thread (suc fuel) r = elim (advance r) [ none ↦ r | some r' ↦ run_thread fuel r' ]
