-- ===== src/Trace/Source/Writer.antt =====
-- `SourceByteWriter` of source/trace/src/base_trace_source/file_writing.cpp: the driver begins, writes bytes
-- and ends. The stream is an interface; how a float is computed of two counts is a parameter. An operation
-- of the stream that faults gives nothing, and so does an assertion that fails.
use radeon_developer_panel.Common.{
  ℕ, ◌+◌, ◌%◌, ◌^◌, Bool, true, false, List, [], ◌∷◌, ◌++◌, Option, none, some, ◌>>=◌, Bytes,
  length, ltb, ◌==◌, if◌then◌else◌,
}
use radeon_developer_panel.Trace.Source.Handlers.{WritingProgress}

-- `ReadWriteStream`, as the writer uses it. `Write` gives the count that it has written, or none where it
-- returns false.
pub record StreamOps (S : Type 0) : Type 0 where
  pub open_stream : S → Option (S × Bool)
  pub write_bytes : Bytes → S → Option (S × Option ℕ)
  pub close_stream : S → S

abbrev pub no_progress : WritingProgress
no_progress = record { total_bytes_to_dump = 0; num_bytes_dumped = 0; progress = 0 }

-- The writer, with the progress that it has reported and the times that it has told that it writes.
pub record ByteWriter (S : Type 0) : Type 0 where
  pub stream : Option S
  pub current_progress : WritingProgress
  pub reports : List WritingProgress
  pub writing_events : ℕ

abbrev pub new_byte_writer : {S : Type 0} → Option S → ByteWriter S
new_byte_writer stream = record {
  stream = stream;
  current_progress = no_progress;
  reports = [];
  writing_events = 0;
}

-- `std::max`.
abbrev pub max_count : ℕ → ℕ → ℕ
max_count a b = if ltb a b then b else a

module _ {S : Type 0} where
  unfoldable pub begin_writing : ByteWriter S → ByteWriter S
  begin_writing w = record w {
    current_progress = no_progress;
    writing_events = w.writing_events + 1;
  }

  -- The progress is set and reported.
  unfoldable pub report_current : WritingProgress → ByteWriter S → ByteWriter S
  report_current p w = record w { current_progress = p; reports = w.reports ++ p ∷ [] }

abbrev pub total_size : Option ℕ → ℕ
total_size none = 0
total_size (some n) = n % 2 ^ 32

module _ {S : Type 0} (ops : StreamOps S) where
  abbrev begin_opened : Option ℕ → ByteWriter S → S × Bool → ByteWriter S × Bool
  begin_opened size w (s, false) = (record w { stream = some s }, false)
  begin_opened size w (s, true) = (
    report_current (record w.current_progress { total_bytes_to_dump = total_size size })
        (record w { stream = some s }),
    true,
  )

  abbrev begin_stream : Option ℕ → ByteWriter S → Option S → Option (ByteWriter S × Bool)
  begin_stream size w none = some (w, false)
  begin_stream size w (some s) = ops.open_stream s >>= λ r. some (begin_opened size w r)

  -- Whether it succeeds.
  unfoldable pub byte_writer_begin : Option ℕ → ByteWriter S → Option (ByteWriter S × Bool)
  unfolding begin_writing report_current
  byte_writer_begin size w = begin_stream size (begin_writing w) w.stream

-- The progress after some more bytes.
unfoldable pub advance_progress : (ratio : ℕ → ℕ → ℕ) → ℕ → WritingProgress → WritingProgress
advance_progress ratio size p =
    let num = (p.num_bytes_dumped + size) % 2 ^ 64 in
    let total = max_count p.total_bytes_to_dump num in
    record { total_bytes_to_dump = total; num_bytes_dumped = num; progress = ratio num total }

module _ {S : Type 0} (ops : StreamOps S) (ratio : ℕ → ℕ → ℕ) where
  abbrev write_done : ℕ → ByteWriter S → S × Option ℕ → ByteWriter S × Bool
  write_done size w (s, none) = (record w { stream = some s }, false)
  write_done size w (s, some written) =
      let w' = record w { stream = some s } in
      if written == size
      then (report_current (advance_progress ratio size w.current_progress) w', true)
      else (w', false)

  abbrev write_stream : Bytes → ByteWriter S → Option S → Option (ByteWriter S × Bool)
  write_stream bytes w none = some (w, false)
  write_stream bytes w (some s) =
      ops.write_bytes bytes s >>= λ r. some (write_done (length bytes) w r)

  -- It asserts that there are bytes.
  unfoldable pub byte_writer_write_bytes : Bytes → ByteWriter S → Option (ByteWriter S × Bool)
  unfolding advance_progress report_current
  byte_writer_write_bytes [] w = none
  byte_writer_write_bytes (b ∷ bytes) w = write_stream (b ∷ bytes) w w.stream

module _ {S : Type 0} (ops : StreamOps S) (post_process : S → S) where
  abbrev end_stream : ByteWriter S → Option S → ByteWriter S
  end_stream w none = w
  end_stream w (some s) = record w { stream = some (ops.close_stream (post_process s)) }

  unfoldable pub byte_writer_end : ByteWriter S → ByteWriter S
  byte_writer_end w = end_stream w w.stream
