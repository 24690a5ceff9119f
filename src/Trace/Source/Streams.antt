-- ===== src/Trace/Source/Streams.antt =====
-- The streams of source/api/api_trace_io.cpp as streams for `SourceByteWriter`
-- (source/trace/src/base_trace_source/file_writing.cpp).
use radeon_developer_panel.Common.{
  ℕ, zero, suc, ◌+◌, ◌<◌, ◌≡◌, refl, ap, ◌∙◌, true, false, List, [], ◌∷◌, ◌++◌, Option, none, some,
  Bytes, length, length-append, drop, arith,
}
use mathlib.Core.List.{append-nil}
use radeon_developer_panel.Api.Stream.Memory.{half_word}
use radeon_developer_panel.Api.Stream.File.{
  Op, Reply, wrote, got, moved, rejected, overwrite, file_step, File,
}
use radeon_developer_panel.Api.Stream.File
use radeon_developer_panel.Api.Stream.Refinement.{IsValid, contents}
use radeon_developer_panel.Api.Stream.Calls.{Stream, stream_step, step-Agrees}
use radeon_developer_panel.Trace.Source.Writer.{StreamOps}
use radeon_developer_panel.Trace.Source.Stored.{Appends}

abbrev count_of : Reply → Option ℕ
count_of (wrote n) = some n
count_of _ = none

abbrev counted : Option (Stream × Reply) → Option (Stream × Option ℕ)
counted none = none
counted (some (s, r)) = some (s, count_of r)

-- `Open` does nothing, and `Close` marks the data.
abbrev pub memory_ops : (fresh : ℕ → ℕ) → StreamOps Stream
memory_ops fresh = record {
  open_stream = λ s. some (s, true);
  write_bytes = λ bytes s. counted (stream_step fresh (File.writes bytes) s);
  close_stream = λ (d, index). (record d { is_open = false }, index);
}

-- The head is at the end, and some more bytes keep the size below 2 ^ 63.
abbrev pub HasRoom : ℕ → Stream → Type 0
HasRoom n (d, index) = IsValid d index × (index ≡ length (contents d)) × (d.size + n < half_word)

abbrev pub stored : Stream → Bytes
stored (d, index) = contents d

drop-nil : (n : ℕ) → drop {A = ℕ} n [] ≡ []
drop-nil zero = refl
drop-nil (suc n) = refl

overwrite-end : (new old : Bytes) → overwrite (length old) new old ≡ old ++ new
unfolding overwrite
overwrite-end new [] = ap (λ bs. new ++ bs) (drop-nil (length new)) ∙ append-nil new
overwrite-end new (b ∷ old) = ap (λ bs. b ∷ bs) (overwrite-end new old)

pub memory_ops-Appends : (fresh : ℕ → ℕ) → Appends (memory_ops fresh) stored HasRoom
unfolding file_step
memory_ops-Appends fresh = record {
  opens = λ n s r. (s, refl, r, refl);
  appends = λ n bytes (d, index) r l.
      let a = step-Agrees fresh (File.writes bytes) d index tt r.0 (omega (arith, r.2, l)) in
      let bs : contents a.d' ≡ contents d ++ bytes =
        ap (λ (f : File). f.bytes) a.file
        ∙ ap (λ i. overwrite i bytes (contents d)) r.1
        ∙ overwrite-end bytes (contents d) in
      let end : a.index' ≡ length (contents a.d') =
        ap (λ (f : File). f.position) a.file
        ∙ omega (arith, r.1, length-append (contents d) bytes, ap length bs) in
      ((a.d', a.index'), ap counted a.ends, (a.valid, end, omega (arith, a.bounded, r.2, l)), bs);
}
