-- ===== src/Trace/Source/Dumped.antt =====
-- What `SourceByteWriter` (source/trace/src/base_trace_source/file_writing.cpp) reports and writes.
use radeon_developer_panel.Common.{
  ℕ, ◌≤◌, ◌≡◌, refl, Bool, true, false, List, [], ◌∷◌, ◌++◌, Option, none, some, ◌>>=◌, Bytes,
  length, ◌==◌, arith, All, Bool-cases, Option-cases, inl, inr,
}
use radeon_developer_panel.Trace.Source.Handlers.{WritingProgress}
use radeon_developer_panel.Trace.Source.Writer.{
  StreamOps, ByteWriter, begin_writing, report_current, byte_writer_begin, advance_progress,
  byte_writer_write_bytes, byte_writer_end,
}

-- A call of the driver.
pub data Call : Type 0 where
  begins : Option ℕ → Call
  writes : Bytes → Call
  ends : Call

abbrev pub IsBounded : WritingProgress → Type 0
IsBounded p = p.num_bytes_dumped ≤ p.total_bytes_to_dump

All-append_one :
    (ps : List WritingProgress) (p : WritingProgress)
    → All IsBounded ps
    → IsBounded p
    → All IsBounded (ps ++ p ∷ [])
All-append_one [] p h b = (b, tt)
All-append_one (q ∷ ps) p h b = (h.0, All-append_one ps p h.1 b)

advance_progress-IsBounded :
    (ratio : ℕ → ℕ → ℕ) (size : ℕ) (p : WritingProgress) → IsBounded (advance_progress ratio size p)
unfolding advance_progress
advance_progress-IsBounded ratio size p = ground arith

module _ {S : Type 0} (ops : StreamOps S) (ratio : ℕ → ℕ → ℕ) (post_process : S → S) where
  abbrev done : Option (ByteWriter S × Bool) → Option (ByteWriter S)
  done none = none
  done (some (w, b)) = some w

  abbrev pub call : Call → ByteWriter S → Option (ByteWriter S)
  call (begins size) w = done (byte_writer_begin ops size w)
  call (writes bytes) w = done (byte_writer_write_bytes ops ratio bytes w)
  call ends w = some (byte_writer_end ops post_process w)

  abbrev pub run : List Call → ByteWriter S → Option (ByteWriter S)
  run [] w = some w
  run (c ∷ cs) w = call c w >>= run cs

  -- What is reported and what would be.
  abbrev pub AllBounded : ByteWriter S → Type 0
  AllBounded w = IsBounded w.current_progress × All IsBounded w.reports

  abbrev pub AllBounded? : Option (ByteWriter S) → Type 0
  AllBounded? none = Unit
  AllBounded? (some w) = AllBounded w

  begin-AllBounded :
      (size : Option ℕ) (w : ByteWriter S) (o : Option S)
      → w.stream ≡ o
      → All IsBounded w.reports
      → AllBounded? (done (byte_writer_begin ops size w))
  unfolding byte_writer_begin begin_writing report_current
  begin-AllBounded size w none e h = rw e (omega arith, h)
  begin-AllBounded size w (some s) e h = elim (Option-cases (ops.open_stream s)) [
    | inl n ↦ rw (e, n) tt
    | inr ((s', false), n) ↦ rw (e, n) (omega arith, h)
    | inr ((s', true), n) ↦ rw (e, n) (omega arith, All-append_one w.reports _ h (omega arith))
  ]

  write-AllBounded :
      (bytes : Bytes) (w : ByteWriter S) (o : Option S)
      → w.stream ≡ o
      → AllBounded w
      → AllBounded? (done (byte_writer_write_bytes ops ratio bytes w))
  unfolding byte_writer_write_bytes report_current
  write-AllBounded [] w o e h = tt
  write-AllBounded (b ∷ bs) w none e h = rw e h
  write-AllBounded (b ∷ bs) w (some s) e h =
      let bytes : Bytes = b ∷ bs in
      elim (Option-cases (ops.write_bytes bytes s)) [
        | inl n ↦ rw (e, n) tt
        | inr ((s', none), n) ↦ rw (e, n) h
        | inr ((s', some written), n) ↦ elim (Bool-cases (written == length bytes)) [
          | inr d ↦ rw (e, n, d) h
          | inl d ↦
              let p = advance_progress ratio (length bytes) w.current_progress in
              let b = advance_progress-IsBounded ratio (length bytes) w.current_progress in
              rw (e, n, d) (b, All-append_one w.reports p h.1 b)
        ]
      ]

  bind-AllBounded :
      (o : Option (ByteWriter S)) (next : ByteWriter S → Option (ByteWriter S))
      → AllBounded? o
      → ((w : ByteWriter S) → AllBounded w → AllBounded? (next w))
      → AllBounded? (o >>= next)
  bind-AllBounded none next h f = tt
  bind-AllBounded (some w) next h f = f w h

  end-AllBounded :
      (w : ByteWriter S) (o : Option S)
      → w.stream ≡ o
      → AllBounded w
      → AllBounded (byte_writer_end ops post_process w)
  unfolding byte_writer_end
  end-AllBounded w none e h = rw e h
  end-AllBounded w (some s) e h = rw e h

  call-AllBounded : (c : Call) (w : ByteWriter S) → AllBounded w → AllBounded? (call c w)
  call-AllBounded (begins size) w h = begin-AllBounded size w w.stream refl h.1
  call-AllBounded (writes bytes) w h = write-AllBounded bytes w w.stream refl h
  call-AllBounded ends w h = end-AllBounded w w.stream refl h

  -- Whatever the driver calls and in whatever order, also where the size that it gives at the beginning
  -- is too small or is cut to 32 bits, and where the stream fails: no more bytes are ever reported as
  -- dumped than there are to dump.
  pub run-AllBounded : (cs : List Call) (w : ByteWriter S) → AllBounded w → AllBounded? (run cs w)
  run-AllBounded [] w h = h
  run-AllBounded (c ∷ cs) w h =
      bind-AllBounded (call c w) (run cs) (call-AllBounded c w h) (run-AllBounded cs)
