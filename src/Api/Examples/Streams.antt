-- ===== src/Api/Examples/Streams.antt =====
-- The theorems on source/api/api_trace_io.cpp at concrete inputs.
use radeon_developer_panel.Common.{ℕ, ◌≡◌, List, [], ◌∷◌, some, none, arith}
use radeon_developer_panel.Api.Stream.Memory.{pos, negsuc, StreamData, new_stream_data}
use radeon_developer_panel.Api.Stream.File.{Op, writes, reads, seeks, file_run}
use radeon_developer_panel.Api.Stream.Refinement.{IsValid, new_stream_data-IsValid}
use radeon_developer_panel.Api.Stream.Calls.{Stream, file_of}
use radeon_developer_panel.Api.Stream.Run.{stream_run, stream_run-refines, stream_run-negsuc}

-- Memory that holds 7 before it is written.
abbrev sevens : ℕ → ℕ
sevens i = 7

abbrev new_stream : StreamData
new_stream = new_stream_data sevens

abbrev some_ops : List Op
some_ops = writes (1 ∷ 2 ∷ 3 ∷ []) ∷ seeks (pos 1) ∷ writes (9 ∷ []) ∷ seeks (pos 0) ∷ reads 3 ∷ []

stream_run-refines_example :
    (s : Stream) × (stream_run sevens some_ops (new_stream, 0)
      ≡ some (s, (file_run some_ops (file_of (new_stream, 0))).1))
    × IsValid s.0 s.1
    × (file_of s ≡ (file_run some_ops (file_of (new_stream, 0))).0)
unfolding new_stream_data
stream_run-refines_example =
    stream_run-refines sevens some_ops new_stream 0 (ground arith)
      (new_stream_data-IsValid sevens).0 (omega arith)

-- A read of two bytes from the position -2.
stream_run-negsuc_example :
    stream_run sevens (seeks (negsuc 1) ∷ reads 2 ∷ []) (new_stream, 0) ≡ none
unfolding new_stream_data
stream_run-negsuc_example =
    stream_run-negsuc sevens 1 2 new_stream 0 (new_stream_data-IsValid sevens).0 (omega arith)
      (omega arith) (omega arith) (omega arith) (omega arith)
