-- ===== src/Trace/Source/Heartbeat.antt =====
-- `SourceRdfWriter` of source/trace/src/base_trace_source/file_writing.cpp: the driver's RDF library writes to
-- the stream and tells of what it does by heartbeats. The library's result codes are a parameter.
use radeon_developer_panel.Common.{
  ℕ, Bool, true, false, List, [], ◌∷◌, ◌++◌, Option, none, some, ◌>>=◌, Bytes, not, if◌then◌else◌,
}
use radeon_developer_panel.Trace.Source.Handlers.{WritingProgress}
use radeon_developer_panel.Trace.Source.Writer.{
  StreamOps, no_progress, total_size, advance_progress,
}

-- `DD_RESULT`: the two results that the writer gives itself, and which is the first of them.
pub record Results (R : Type 0) : Type 0 where
  pub success : R
  pub unknown : R
  pub is_success : R → Bool

-- `DD_IO_STATUS`, with any number that has no name.
pub data IoStatus : Type 0 where
  io_begin : IoStatus
  io_write : IoStatus
  io_end : IoStatus
  io_other : ℕ → IoStatus

-- The writer, with the progress that it has reported. Its base also tells its listeners that it begins, but
-- `RegisterWritingStatusEvent` is not passed on to the base, so that there are none.
pub record RdfWriter (S : Type 0) : Type 0 where
  pub stream : Option S
  pub current_progress : WritingProgress
  pub reports : List WritingProgress

abbrev pub new_rdf_writer : {S : Type 0} → Option S → RdfWriter S
new_rdf_writer stream = record { stream = stream; current_progress = no_progress; reports = [] }

-- The progress is set and reported.
unfoldable pub report_rdf : {S : Type 0} → WritingProgress → RdfWriter S → RdfWriter S
report_rdf p w = record w { current_progress = p; reports = w.reports ++ p ∷ [] }

module _ {S R : Type 0} (ops : StreamOps S) (results : Results R) where
  abbrev io_opened : ℕ → RdfWriter S → S × Bool → RdfWriter S × R
  io_opened total w (s, false) = (record w { stream = some s }, results.unknown)
  io_opened total w (s, true) = (
    report_rdf (record w.current_progress { total_bytes_to_dump = total_size (some total) })
        (record w { stream = some s }),
    results.success,
  )

  abbrev io_begin_stream : ℕ → RdfWriter S → Option S → Option (RdfWriter S × R)
  io_begin_stream total w none = some (w, results.unknown)
  io_begin_stream total w (some s) = ops.open_stream s >>= λ r. some (io_opened total w r)

  -- The progress starts again also where the beginning has failed.
  unfoldable pub handle_io_begin : R → ℕ → RdfWriter S → Option (RdfWriter S × R)
  unfolding report_rdf
  handle_io_begin result total w =
      let w' = record w { current_progress = no_progress } in
      if not (results.is_success result)
      then some (w', result)
      else io_begin_stream total w' w.stream

module _ {S R : Type 0} (results : Results R) (ratio : ℕ → ℕ → ℕ) where
  unfoldable pub handle_io_write : R → ℕ → RdfWriter S → RdfWriter S × R
  unfolding advance_progress report_rdf
  handle_io_write result size w =
      if not (results.is_success result)
      then (w, result)
      else (report_rdf (advance_progress ratio size w.current_progress) w, results.success)

module _ {S : Type 0} (ops : StreamOps S) (post_process : S → S) where
  abbrev io_end_stream : RdfWriter S → Option S → RdfWriter S
  io_end_stream w none = w
  io_end_stream w (some s) = record w { stream = some (ops.close_stream (post_process s)) }

  -- It processes and closes the stream whatever the result is, also where it is a failure.
  unfoldable pub handle_io_end : {R : Type 0} → R → RdfWriter S → RdfWriter S × R
  handle_io_end result w = (io_end_stream w w.stream, result)

module _ {S R : Type 0} (ops : StreamOps S) (results : Results R) (ratio : ℕ → ℕ → ℕ)
    (post_process : S → S) where
  unfoldable pub io_write_heartbeat : R → IoStatus → ℕ → RdfWriter S → Option (RdfWriter S × R)
  unfolding handle_io_begin handle_io_write handle_io_end
  io_write_heartbeat result io_begin size w = handle_io_begin ops results result size w
  io_write_heartbeat result io_write size w = some (handle_io_write results ratio result size w)
  io_write_heartbeat result io_end size w = some (handle_io_end ops post_process result w)
  io_write_heartbeat result (io_other n) size w = some (w, results.unknown)

module _ {S : Type 0} (ops : StreamOps S) where
  abbrev written_to : RdfWriter S → S × Option ℕ → RdfWriter S × Option ℕ
  written_to w (s, n) = (record w { stream = some s }, n)

  abbrev write_to : Bytes → RdfWriter S → Option S → Option (RdfWriter S × Option ℕ)
  write_to bytes w none = none
  write_to bytes w (some s) = ops.write_bytes bytes s >>= λ r. some (written_to w r)

  -- It faults where the writer has no stream, which it does not test.
  unfoldable pub stream_write : Bytes → RdfWriter S → Option (RdfWriter S × Option ℕ)
  stream_write bytes w = write_to bytes w w.stream
