-- ===== src/Trace/Source/Stored.antt =====
-- A dump through `SourceByteWriter` (source/trace/src/base_trace_source/file_writing.cpp) to a stream that
-- appends.
use radeon_developer_panel.Common.{
  ℕ, ◌+◌, ◌-◌, ◌^◌, ◌≤◌, ◌<◌, ◌≡◌, ◌≢◌, refl, ap, ◌∙◌, sym, Bool, true, false, List, [], ◌∷◌, ◌++◌,
  Option, none, some, ◌>>=◌, Bytes, length, length-append, ==_iff, arith, All,
}
use mathlib.Core.List.{append_assoc, append-nil}
use radeon_developer_panel.Trace.Source.Handlers.{WritingProgress}
use radeon_developer_panel.Trace.Source.Writer.{
  StreamOps, ByteWriter, new_byte_writer, no_progress, total_size, begin_writing, report_current,
  byte_writer_begin, advance_progress, byte_writer_write_bytes,
}

abbrev pub concat : List Bytes → Bytes
concat [] = []
concat (bytes ∷ chunks) = bytes ++ concat chunks

abbrev pub HasBytes : Bytes → Type 0
HasBytes bytes = bytes ≢ []

-- A call that faults or does not report success gives nothing.
abbrev accepted : {S : Type 0} → Option (ByteWriter S × Bool) → Option (ByteWriter S)
accepted none = none
accepted (some (w, false)) = none
accepted (some (w, true)) = some w

module _ {S : Type 0} (ops : StreamOps S) (ratio : ℕ → ℕ → ℕ) where
  abbrev pub write_accepted : List Bytes → ByteWriter S → Option (ByteWriter S)
  write_accepted [] w = some w
  write_accepted (bytes ∷ chunks) w =
      accepted (byte_writer_write_bytes ops ratio bytes w) >>= write_accepted chunks

  -- The beginning and the writes of a dump, which gives nothing where one of the calls does not succeed.
  abbrev pub dump_accepted : Option ℕ → List Bytes → ByteWriter S → Option (ByteWriter S)
  dump_accepted size chunks w = accepted (byte_writer_begin ops size w) >>= write_accepted chunks

module _ {S : Type 0} (ops : StreamOps S) where
  -- The stream takes every chunk whole, one after the other.
  abbrev pub Stores : List Bytes → S → S → Type 0
  Stores [] s t = s ≡ t
  Stores (bytes ∷ chunks) s t =
      (u : S) × (ops.write_bytes bytes s ≡ some (u, some (length bytes))) × Stores chunks u t

-- The progress and the reports after some counts of bytes.
abbrev pub Told : Type 0
Told = WritingProgress × List WritingProgress

abbrev pub tell_all : (ratio : ℕ → ℕ → ℕ) → List ℕ → Told → Told
tell_all ratio [] told = told
tell_all ratio (n ∷ ns) (p, reports) =
    let p' = advance_progress ratio n p in tell_all ratio ns (p', reports ++ p' ∷ [])

abbrev pub sizes : List Bytes → List ℕ
sizes [] = []
sizes (bytes ∷ chunks) = length bytes ∷ sizes chunks

tell_all-num :
    (ratio : ℕ → ℕ → ℕ) (chunks : List Bytes) (p : WritingProgress) (reports : List WritingProgress)
    → p.num_bytes_dumped + length (concat chunks) < 2 ^ 64
    → (tell_all ratio (sizes chunks) (p, reports)).0.num_bytes_dumped
      ≡ p.num_bytes_dumped + length (concat chunks)
unfolding advance_progress
tell_all-num ratio [] p reports b = omega arith
tell_all-num ratio (bytes ∷ chunks) p reports b =
    let p' = advance_progress ratio (length bytes) p in
    let sum = length-append bytes (concat chunks) in
    let num : p'.num_bytes_dumped ≡ p.num_bytes_dumped + length bytes = omega (arith, b, sum) in
    tell_all-num ratio chunks p' (reports ++ p' ∷ []) (omega (arith, b, sum, num))
    ∙ omega (arith, sum, num)

module _ {S : Type 0} (ops : StreamOps S) (ratio : ℕ → ℕ → ℕ) where
  abbrev pub told_writer : ByteWriter S → S → Told → ByteWriter S
  told_writer w s (p, reports) = record w {
    stream = some s;
    current_progress = p;
    reports = reports;
  }

  accepted-write :
      (bytes : Bytes) (s t : S) (w : ByteWriter S)
      → HasBytes bytes
      → w.stream ≡ some s
      → ops.write_bytes bytes s ≡ some (t, some (length bytes))
      → accepted (byte_writer_write_bytes ops ratio bytes w)
        ≡ some
            (told_writer w t (tell_all ratio (length bytes ∷ []) (w.current_progress, w.reports)))
  unfolding byte_writer_write_bytes report_current
  accepted-write [] s t w h e f = absurd (h refl)
  accepted-write (b ∷ bytes) s t w h e f =
      rw (e, f, (==_iff (length (b ∷ bytes)) (length (b ∷ bytes))).1 refl) refl

  pub write_accepted-Stores :
      (chunks : List Bytes) (s t : S) (w : ByteWriter S)
      → All HasBytes chunks
      → w.stream ≡ some s
      → Stores ops chunks s t
      → write_accepted ops ratio chunks w
        ≡ some (told_writer w t (tell_all ratio (sizes chunks) (w.current_progress, w.reports)))
  write_accepted-Stores [] s t w h e r =
      ap (λ o. some (record w { stream = o })) (e ∙ ap (λ v. some v) r)
  write_accepted-Stores (bytes ∷ chunks) s t w h e (u, f, r) =
      let told = tell_all ratio (length bytes ∷ []) (w.current_progress, w.reports) in
      ap (λ o. o >>= write_accepted ops ratio chunks) (accepted-write bytes s u w h.0 e f)
      ∙ write_accepted-Stores chunks u t (told_writer w u told) h.1 refl r

  -- What a dump starts from.
  abbrev pub begun : Option ℕ → Told
  begun size =
      let p : WritingProgress = record no_progress { total_bytes_to_dump = total_size size } in
      (p, p ∷ [])

  accepted-begin :
      (size : Option ℕ) (s t : S)
      → ops.open_stream s ≡ some (t, true)
      → accepted (byte_writer_begin ops size (new_byte_writer (some s)))
        ≡ some
            (told_writer (record (new_byte_writer (some t)) { writing_events = 1 }) t (begun size))
  unfolding byte_writer_begin begin_writing report_current
  accepted-begin size s t e = rw e refl

  abbrev pub dumped : Option ℕ → List Bytes → S → ByteWriter S
  dumped size chunks t =
      told_writer (record (new_byte_writer (some t)) { writing_events = 1 }) t
        (tell_all ratio (sizes chunks) (begun size))

  pub dump_accepted-dumped :
      (size : Option ℕ) (chunks : List Bytes) (s t u : S)
      → All HasBytes chunks
      → ops.open_stream s ≡ some (t, true)
      → Stores ops chunks t u
      → dump_accepted ops ratio size chunks (new_byte_writer (some s)) ≡ some (dumped size chunks u)
  dump_accepted-dumped size chunks s t u h e r =
      ap (λ o. o >>= write_accepted ops ratio chunks) (accepted-begin size s t e)
      ∙ write_accepted-Stores chunks t u _ h refl r

module _ {S : Type 0} (ops : StreamOps S) (contents : S → Bytes) (Ready : ℕ → S → Type 0) where
  -- A stream with room for some bytes opens, and appends what is written.
  pub record Appends : Type 0 where
    pub opens :
        (n : ℕ) (s : S)
        → Ready n s
        → (s' : S) × (ops.open_stream s ≡ some (s', true)) × Ready n s' × (contents s' ≡ contents s)
    pub appends :
        (n : ℕ) (bytes : Bytes) (s : S)
        → Ready n s
        → length bytes ≤ n
        → (s' : S) × (ops.write_bytes bytes s ≡ some (s', some (length bytes)))
          × Ready (n - length bytes) s'
          × (contents s' ≡ contents s ++ bytes)

  module _ (laws : Appends) where
    pub Stores-appends :
        (chunks : List Bytes) (n : ℕ) (s : S)
        → Ready n s
        → length (concat chunks) ≤ n
        → (t : S) × Stores ops chunks s t × (contents t ≡ contents s ++ concat chunks)
    Stores-appends [] n s r l = (s, refl, sym (append-nil (contents s)))
    Stores-appends (bytes ∷ chunks) n s r l =
        let sum = length-append bytes (concat chunks) in
        let (u, f, r', c) = laws.appends n bytes s r (omega (arith, l, sum)) in
        let (t, g, d) = Stores-appends chunks (n - length bytes) u r' (omega (arith, l, sum)) in
        (
          t,
          (u, f, g),
          d ∙ ap (λ bs. bs ++ concat chunks) c ∙ append_assoc (contents s) bytes (concat chunks),
        )

    -- A dump of chunks of bytes, none of them empty, to a stream with room for them, whatever size is given
    -- at the beginning: every call succeeds, and they leave in the stream what it held before and then the
    -- chunks in their order; as many bytes are reported last as the chunks have.
    pub dump_accepted-stored :
        (ratio : ℕ → ℕ → ℕ) (size : Option ℕ) (chunks : List Bytes) (n : ℕ) (s : S)
        → All HasBytes chunks
        → Ready n s
        → length (concat chunks) ≤ n
        → length (concat chunks) < 2 ^ 64
        → (w : ByteWriter S) × (dump_accepted ops ratio size chunks (new_byte_writer (some s))
            ≡ some w)
          × (t : S) × (w.stream ≡ some t)
          × (contents t ≡ contents s ++ concat chunks)
          × (w.current_progress.num_bytes_dumped ≡ length (concat chunks))
    dump_accepted-stored ratio size chunks n s h r l b =
        let (t, e, r', c) = laws.opens n s r in
        let (u, f, d) = Stores-appends chunks n t r' l in
        (
          dumped ops ratio size chunks u,
          dump_accepted-dumped ops ratio size chunks s t u h e f,
          u,
          refl,
          d ∙ ap (λ bs. bs ++ concat chunks) c,
          tell_all-num ratio chunks (begun ops ratio size).0 (begun ops ratio size).1
                (omega (arith, b))
              ∙ omega arith,
        )
