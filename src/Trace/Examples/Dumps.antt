-- ===== src/Trace/Examples/Dumps.antt =====
-- The theorems on source/trace/src/base_trace_source/file_writing.cpp at concrete inputs.
use radeon_developer_panel.Common.{ℕ, Bool, List, [], ◌∷◌, some, Bytes, ◌==◌, arith}
use radeon_developer_panel.Api.Stream.Memory.{new_stream_data}
use radeon_developer_panel.Api.Stream.Calls.{Stream}
use radeon_developer_panel.Trace.Source.Writer.{new_byte_writer}
use radeon_developer_panel.Trace.Source.Heartbeat.{Results}
use radeon_developer_panel.Trace.Source.Rdf.{Event, tells, stores}
use radeon_developer_panel.Trace.Source.Streams.{memory_ops}
use radeon_developer_panel.Trace.Source.Dumped.{
  Call, begins, writes, ends, run, AllBounded?, run-AllBounded,
}

abbrev sevens : ℕ → ℕ
sevens i = 7

abbrev percent : ℕ → ℕ → ℕ
percent num total = num

abbrev new_stream : Stream
new_stream = (new_stream_data sevens, 0)

-- The size that is given at the beginning is too small, and the driver writes after the end.
abbrev some_calls : List Call
some_calls = begins (some 2) ∷ writes (1 ∷ 2 ∷ 3 ∷ []) ∷ ends ∷ writes (4 ∷ []) ∷ []

run-AllBounded_example :
    AllBounded?
      (memory_ops sevens)
      percent
      (λ s. s)
      (run (memory_ops sevens) percent (λ s. s) some_calls (new_byte_writer (some new_stream)))
run-AllBounded_example =
    run-AllBounded (memory_ops sevens) percent (λ s. s) some_calls
      (new_byte_writer (some new_stream)) (omega arith, tt)

abbrev some_chunks : List Bytes
some_chunks = (1 ∷ 2 ∷ []) ∷ (3 ∷ []) ∷ []

-- A result is a number, and 0 is success.
abbrev is_zero : ℕ → Bool
is_zero n = n == 0

abbrev numbers : Results ℕ
numbers = record { success = 0; unknown = 1; is_success = is_zero }

-- The first chunk is told of before it is written, and the second one after.
abbrev some_events : List Event
some_events = tells 2 ∷ stores (1 ∷ 2 ∷ []) ∷ stores (3 ∷ []) ∷ tells 1 ∷ []
