-- ===== src/Api/Requests/Traces.antt =====
-- The requests that `TraceSourceAdapter` (source/api/trace_source_adapter.cpp) passes to its trace source.
-- What the source answers is a parameter; a connection is its number, and 0 is the constant for the
-- first connection.
use radeon_developer_panel.Common.{
  ℕ, ◌%◌, ◌^◌, Bool, true, false, not, List, [], ◌∷◌, Option, none, some, ◌==◌, if◌then◌else◌,
  Bytes,
}
use radeon_developer_panel.Trace.Api.{Api}
use radeon_developer_panel.Trace.Status.{Status}
use radeon_developer_panel.Api.Result.{CaptureResult}
use radeon_developer_panel.Api.Data.{Result, get_capture_result}
use radeon_developer_panel.Api.Requests.Events.{AdapterStatus}

-- The kinds of trace sources that `GetSource` tells apart, with the answers of their requests by
-- connection.
pub record SourceAnswers : Type 0 where
  pub begin_trace : Option (ℕ → ℕ → Result)
  pub add_marker : Option (ℕ → Bytes → Result)
  pub dump : Option (ℕ → Result)
  pub abort_trace : ℕ → Result
  pub abort_processing : Result

abbrev first_connection : List (ℕ × Api) → ℕ
first_connection [] = 0
first_connection ((id, api) ∷ cs) = id

unfoldable pub get_connection_id : AdapterStatus → ℕ → ℕ
get_connection_id a connection =
    if not (connection == 0) then connection % 2 ^ 16 else first_connection a.connection_map

unfoldable pub begin_trace : SourceAnswers → ℕ → AdapterStatus → ℕ → CaptureResult
unfolding get_connection_id get_capture_result
begin_trace source capture_mode a connection = elim source.begin_trace [
  | none ↦ CaptureResult.unsupported
  | some request ↦ get_capture_result (request (get_connection_id a connection) capture_mode)
]

-- What `AbortTrace` asks of the source.
pub data AbortRequest : Type 0 where
  aborts_trace : ℕ → AbortRequest
  aborts_processing : AbortRequest

abbrev pub is_ok : Result → Bool
is_ok Result.success = true
is_ok _ = false

abbrev pub abort_processing_of : SourceAnswers → Status → CaptureResult × List AbortRequest
unfolding get_capture_result
abort_processing_of source status =
    if status.abort_processing_supported
    then (
      (if is_ok source.abort_processing
          then CaptureResult.success
          else get_capture_result source.abort_processing),
      aborts_processing ∷ [],
    )
    else (CaptureResult.success, [])

abbrev cons_request :
    AbortRequest → CaptureResult × List AbortRequest → CaptureResult × List AbortRequest
cons_request r (result, rs) = (result, r ∷ rs)

-- The result, with the requests in their order.
unfoldable pub abort_trace : SourceAnswers → AdapterStatus → CaptureResult × List AbortRequest
unfolding abort_processing_of get_connection_id get_capture_result
abort_trace source a =
    let id = get_connection_id a 0 in
    let rest = abort_processing_of source a.current_status in
    if a.current_status.abort_trace_supported
    then if not (is_ok (source.abort_trace id))
      then (get_capture_result (source.abort_trace id), aborts_trace id ∷ [])
      else cons_request (aborts_trace id) rest
    else rest

unfoldable pub insert_snapshot : SourceAnswers → AdapterStatus → ℕ → Option Bytes → CaptureResult
unfolding get_connection_id get_capture_result
insert_snapshot source a connection none = CaptureResult.invalid_params
insert_snapshot source a connection (some name) = elim source.add_marker [
  | none ↦ CaptureResult.unsupported
  | some request ↦ get_capture_result (request (get_connection_id a connection) name)
]

unfoldable pub dump_trace : SourceAnswers → AdapterStatus → ℕ → CaptureResult
unfolding get_connection_id get_capture_result
dump_trace source a connection = elim source.dump [
  | none ↦ CaptureResult.unsupported
  | some request ↦ get_capture_result (request (get_connection_id a connection))
]
