-- ===== src/Api/Requests/Finished.antt =====
-- A finished trace reaches the user's callback (source/api/trace_source_adapter.cpp and
-- source/api/api_trace_io.cpp).
use radeon_developer_panel.Common.{
  ℕ, ◌≤◌, ◌<◌, ◌≡◌, refl, true, List, Option, none, some, Bytes, length, take, All,
}
use radeon_developer_panel.Api.Result.{CaptureResult}
use radeon_developer_panel.Api.Data.{CompletionStatus}
use radeon_developer_panel.Api.Stream.Memory.{half_word}
use radeon_developer_panel.Api.Stream.File.{Op, file_run}
use radeon_developer_panel.Api.Stream.Calls.{total_written, IsSound}
use radeon_developer_panel.Api.Stream.Provider.{
  Provider, Handle, find_path, create_stream, use_stream, close, consume_stream,
}
use radeon_developer_panel.Api.Stream.Consume.{
  IsFresh, Consumes, empty_file, consume_stream-use_stream,
}
use radeon_developer_panel.Api.Requests.Events.{
  FinishedCall, consumed_call, on_trace_completion_event,
}

-- The data holds the bytes at its front, and is as large as the size says at least.
abbrev pub HoldsBytes : ℕ → Bytes → Option Bytes → Type 0
HoldsBytes size bytes none = ⊥
HoldsBytes size bytes (some buffer) = (take size buffer ≡ bytes) × (size ≤ length buffer)

-- The callback is called once, with success and the bytes, and the path is gone.
abbrev pub Delivers : ℕ → ℕ → Bytes → Provider × Option FinishedCall → Type 0
Delivers path connection bytes (p, none) = ⊥
Delivers path connection bytes (p, some call) =
    (call.connection ≡ connection)
    × (call.result ≡ CaptureResult.success)
    × HoldsBytes call.size bytes call.data_bytes
    × (find_path p.paths path ≡ none)

consumed_call-Delivers :
    (path connection : ℕ) (bytes : Bytes) (r : Provider × Option (ℕ × Bytes))
    → Consumes path r bytes
    → Delivers path connection bytes (consumed_call connection CaptureResult.success r)
consumed_call-Delivers path connection bytes (p, none) c = absurd c
consumed_call-Delivers path connection bytes (p, some (size, buffer)) c =
    (refl, refl, (c.0, c.1), c.2)

-- A trace that is written to a stream by any calls, closed and completed reaches the callback, if one
-- is set: it is called with success and with exactly the bytes that the calls leave in an empty
-- file, and the path of the stream is gone. The counts of reads and the bytes written are below
-- 2 ^ 63, and no call seeks below 0.
pub on_trace_completion_event-use_stream :
    (fresh : ℕ → ℕ) (p : Provider) (ops : List Op) (connection : ℕ)
    → IsFresh p
    → All IsSound ops
    → total_written ops < half_word
    → let (p', path, h) = create_stream fresh p in
      (q : Provider) × (h' : Handle) × (use_stream fresh ops h p'
        ≡ some (q, h', (file_run ops empty_file).1))
      × Delivers path connection
          (file_run ops empty_file).0.bytes
          (on_trace_completion_event true CompletionStatus.completed path connection (close h' q))
unfolding on_trace_completion_event
on_trace_completion_event-use_stream fresh p ops connection f s t =
    let (q, h', e, c) = consume_stream-use_stream fresh p ops f s t in
    let (p', path, h) = create_stream fresh p in
    let bytes = (file_run ops empty_file).0.bytes in
    (q, h', e, consumed_call-Delivers path connection bytes (consume_stream path (close h' q)) c)
