-- ===== src/Api/Examples/Requests.antt =====
-- The theorems on source/api/trace_source_adapter.cpp at concrete inputs.
use radeon_developer_panel.Common.{ℕ, ◌≡◌, true, List, [], ◌∷◌, some, arith}
use radeon_developer_panel.Trace.Status.{Stage, Status, new_status, change_stage}
use radeon_developer_panel.Api.Data.{CompletionStatus}
use radeon_developer_panel.Api.Stream.Memory.{pos}
use radeon_developer_panel.Api.Stream.File.{Op, writes, seeks, file_run}
use radeon_developer_panel.Api.Stream.Provider.{
  Provider, Handle, new_provider, create_stream, use_stream, close,
}
use radeon_developer_panel.Api.Stream.Consume.{empty_file}
use radeon_developer_panel.Api.Requests.Events.{new_adapter_status, on_trace_completion_event}
use radeon_developer_panel.Api.Requests.Stages.{
  Chain, status_calls, last_status, status_calls-Chain,
}
use radeon_developer_panel.Api.Requests.Finished.{Delivers, on_trace_completion_event-use_stream}

-- A source that captures, reports the same again, and dumps.
abbrev some_statuses : List Status
some_statuses =
    change_stage Stage.capturing new_status
    ∷ change_stage Stage.capturing new_status
    ∷ change_stage Stage.dumping new_status
    ∷ []

status_calls-Chain_example :
    Chain new_adapter_status.current_detailed_stage
      (status_calls some_statuses new_adapter_status)
      (last_status some_statuses new_adapter_status).current_detailed_stage
status_calls-Chain_example = status_calls-Chain some_statuses new_adapter_status

abbrev sevens : ℕ → ℕ
sevens i = 7

abbrev some_ops : List Op
some_ops = writes (1 ∷ 2 ∷ 3 ∷ []) ∷ seeks (pos 0) ∷ writes (9 ∷ []) ∷ []

on_trace_completion_event-use_stream_example :
    let (p, path, h) = create_stream sevens new_provider in
    (q : Provider) × (h' : Handle) × (use_stream sevens some_ops h p
      ≡ some (q, h', (file_run some_ops empty_file).1))
    × Delivers path 5
        (file_run some_ops empty_file).0.bytes
        (on_trace_completion_event true CompletionStatus.completed path 5 (close h' q))
on_trace_completion_event-use_stream_example =
    on_trace_completion_event-use_stream sevens new_provider some_ops 5 tt (ground arith)
      (omega arith)
