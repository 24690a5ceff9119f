-- ===== src/Trace/Source/Rdf.antt =====
-- That a dump through `SourceRdfWriter` of source/trace/src/base_trace_source/file_writing.cpp is reported and
-- stored as one through `SourceByteWriter` of the same file.
use radeon_developer_panel.Common.{
  ℕ, ◌≡◌, true, List, [], ◌∷◌, Option, none, some, ◌>>=◌, Bytes, length, ◌==◌, if◌then◌else◌,
}
use radeon_developer_panel.Trace.Source.Writer.{StreamOps, ByteWriter}
use radeon_developer_panel.Trace.Source.Heartbeat.{
  Results, IoStatus, io_begin, io_write, io_end, RdfWriter, io_write_heartbeat, stream_write,
}
use radeon_developer_panel.Trace.Source.Stored.{Told}

-- What the RDF library does between the beginning and the end: it tells how many bytes it writes, or it
-- writes some.
pub data Event : Type 0 where
  tells : ℕ → Event
  stores : Bytes → Event

abbrev pub told_of : List Event → List ℕ
told_of [] = []
told_of (tells n ∷ es) = n ∷ told_of es
told_of (stores bytes ∷ es) = told_of es

abbrev pub stored_of : List Event → List Bytes
stored_of [] = []
stored_of (tells n ∷ es) = stored_of es
stored_of (stores bytes ∷ es) = bytes ∷ stored_of es

-- The two writers have the same stream, progress and reports.
abbrev pub Same : {S : Type 0} → RdfWriter S → ByteWriter S → Type 0
Same r b =
    (r.stream ≡ b.stream) × (r.current_progress ≡ b.current_progress) × (r.reports ≡ b.reports)

module _ {S R : Type 0} (ops : StreamOps S) (results : Results R) (ratio : ℕ → ℕ → ℕ)
    (post_process : S → S) where
  abbrev beat : R → IoStatus → ℕ → RdfWriter S → Option (RdfWriter S × R)
  beat = io_write_heartbeat ops results ratio post_process

  -- A heartbeat that does not succeed gives nothing.
  abbrev accepted : Option (RdfWriter S × R) → Option (RdfWriter S)
  accepted none = none
  accepted (some (w, result)) = if results.is_success result then some w else none

  -- Nor does a write that does not take all the bytes.
  abbrev taken : ℕ → Option (RdfWriter S × Option ℕ) → Option (RdfWriter S)
  taken size none = none
  taken size (some (w, none)) = none
  taken size (some (w, some written)) = if written == size then some w else none

  abbrev event : Event → RdfWriter S → Option (RdfWriter S)
  event (tells n) w = accepted (beat results.success io_write n w)
  event (stores bytes) w = taken (length bytes) (stream_write ops bytes w)

  abbrev pub run_events : List Event → RdfWriter S → Option (RdfWriter S)
  run_events [] w = some w
  run_events (e ∷ es) w = event e w >>= run_events es

  -- A dump, with what the last heartbeat returns.
  abbrev pub rdf_dump : R → ℕ → List Event → RdfWriter S → Option (RdfWriter S × R)
  rdf_dump result size es w =
      accepted (beat results.success io_begin size w) >>= run_events es >>= beat result io_end 0

  module _ (succeeds : results.is_success results.success ≡ true) where
    abbrev told_rdf : S → Told → RdfWriter S
    told_rdf s (p, reports) = record { stream = some s; current_progress = p; reports = reports }
