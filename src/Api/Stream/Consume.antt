-- ===== src/Api/Stream/Consume.antt =====
-- The life of an in-memory stream (source/api/api_trace_io.cpp): created, used, closed and consumed.
use radeon_developer_panel.Common.{
  ℕ, ◌+◌, ◌%◌, ◌<◌, ◌≤◌, ◌≡◌, refl, sym, ap, ◌∙◌, true, false, List, [], ◌∷◌, ◌++◌, Option, none,
  some, Bytes, length, get_elem?, set, take, All, arith, get_elem?-set_self, get_elem?-append_one,
  get_elem?-lt, subst,
}
use radeon_developer_panel.Api.Stream.Memory.{StreamData, half_word, word, new_stream_data}
use radeon_developer_panel.Api.Stream.File.{File, Op, Reply, file_run}
use radeon_developer_panel.Api.Stream.Refinement.{IsValid, contents, new_stream_data-IsValid}
use radeon_developer_panel.Api.Stream.Calls.{total_written, IsSound, file_of}
use radeon_developer_panel.Api.Stream.Run.{stream_run, stream_run-refines}
use radeon_developer_panel.Api.Stream.Provider.{
  Provider, Handle, find_path, erase_path, create_stream, close, consume_stream, use_stream,
}

-- Every path in `data_` was handed out before.
abbrev pub IsFresh : Provider → Type 0
IsFresh p = All (λ (e : ℕ × ℕ). e.0 < p.stream_index) p.paths

find_path-above :
    (paths : List (ℕ × ℕ)) (n : ℕ) → All (λ (e : ℕ × ℕ). e.0 < n) paths → find_path paths n ≡ none
unfolding find_path
find_path-above [] n h = refl
find_path-above ((q, cell) ∷ paths) n h = ground (arith, find_path-above paths n h.1)

All-below_mono :
    (paths : List (ℕ × ℕ)) (n : ℕ)
    → All (λ (e : ℕ × ℕ). e.0 < n) paths
    → All (λ (e : ℕ × ℕ). e.0 < n + 1) paths
All-below_mono [] n h = tt
All-below_mono (e ∷ paths) n h = (omega (arith, h.0), All-below_mono paths n h.1)

find_path-head : (n cell : ℕ) (paths : List (ℕ × ℕ)) → find_path ((n, cell) ∷ paths) n ≡ some cell
unfolding find_path
find_path-head n cell paths = ground arith

erase_path-head : (n cell : ℕ) (paths : List (ℕ × ℕ)) → erase_path ((n, cell) ∷ paths) n ≡ paths
unfolding erase_path
erase_path-head n cell paths = ground arith

-- Until the 64-bit counter wraps, `CreateStream` hands out a path that is not in use, and goes on
-- doing so.
pub create_stream-IsFresh :
    (fresh : ℕ → ℕ) (p : Provider)
    → IsFresh p
    → p.stream_index + 1 < word
    → (find_path p.paths (create_stream fresh p).1 ≡ none)
      × (find_path (create_stream fresh p).0.paths (create_stream fresh p).1
          ≡ some (create_stream fresh p).2.cell)
      × IsFresh (create_stream fresh p).0
unfolding create_stream
create_stream-IsFresh fresh p h k =
    let e = find_path-above p.paths p.stream_index h in
    let next : (p.stream_index + 1) % word ≡ p.stream_index + 1 = omega arith in
    (
      e,
      rw e (find_path-head p.stream_index (length p.cells) p.paths),
      rw e (
        omega arith,
        subst (λ n. All (λ (q : ℕ × ℕ). q.0 < n) p.paths) (sym next)
            (All-below_mono p.paths p.stream_index h),
      ),
    )

abbrev opened : (ℕ → ℕ) → StreamData
opened fresh = record (new_stream_data fresh) { is_open = true }

opened-IsValid : (fresh : ℕ → ℕ) → IsValid (opened fresh) 0 × (contents (opened fresh) ≡ [])
opened-IsValid fresh =
    let (v, e) = new_stream_data-IsValid fresh in
    (record { allocated = v.allocated; roomy = v.roomy; inside = v.inside }, e)

abbrev pub empty_file : File
empty_file = record { bytes = []; position = 0 }

-- What the client gets from `ConsumeStream` after `CreateStream`, the calls, and `Close`.
abbrev pub Consumes : ℕ → Provider × Option (ℕ × Bytes) → Bytes → Type 0
Consumes path (p, none) bytes = ⊥
Consumes path (p, some (size, buffer)) bytes =
    (take size buffer ≡ bytes) × (size ≤ length buffer) × (find_path p.paths path ≡ none)

module _ (cells : List StreamData) (cell : ℕ) (d : StreamData) (path i : ℕ)
    (rest : List (ℕ × ℕ)) where
  abbrev at_path : List StreamData → Provider
  at_path cs = record { cells = cs; paths = (path, cell) ∷ rest; stream_index = i }

  abbrev handle : ℕ → Handle
  handle index = record { cell = cell; current_index = index }

  close_at :
      get_elem? cells cell ≡ some d
      → (index : ℕ)
      → close (handle index) (at_path cells)
        ≡ at_path (set cells cell (record d { is_open = false }))
  unfolding close
  close_at k index = rw k

  consume_closed :
      get_elem? cells cell ≡ some d
      → consume_stream path (at_path (set cells cell (record d { is_open = false }))) ≡ (
        record {
          cells = set cells cell (record d { is_open = false });
          paths = rest;
          stream_index = i;
        },
        some (d.size, d.buffer),
      )
  unfolding consume_stream
  consume_closed k = rw (find_path-head path cell rest) (
      rw
        (get_elem?-set_self cells cell (record d { is_open = false }) (get_elem?-lt cells cell d k))
        (rw (erase_path-head path cell rest)))

  close_then_consume :
      (index : ℕ)
      → get_elem? cells cell ≡ some d
      → IsValid d index
      → find_path rest path ≡ none
      → Consumes path (consume_stream path (close (handle index) (at_path cells))) (contents d)
  close_then_consume index k v gone =
      rw (close_at k index, consume_closed k) (refl, omega (arith, v.roomy, v.allocated), gone)

  use_at :
      (fresh : ℕ → ℕ) (ops : List Op) (d' : StreamData) (index : ℕ) (rs : List Reply)
      → get_elem? cells cell ≡ some d
      → stream_run fresh ops (d, 0) ≡ some ((d', index), rs)
      → use_stream fresh ops (handle 0) (at_path cells)
        ≡ some (at_path (set cells cell d'), handle index, rs)
  unfolding use_stream
  use_at fresh ops d' index rs k e = rw (k, e)

start_size : (fresh : ℕ → ℕ) (n : ℕ) → n < half_word → (opened fresh).size + n < half_word
unfolding new_stream_data
start_size fresh n h = omega arith

opened_run :
    (fresh : ℕ → ℕ) (ops : List Op)
    → All IsSound ops
    → total_written ops < half_word
    → (d' : StreamData) × (index : ℕ) × (stream_run fresh ops (opened fresh, 0)
        ≡ some ((d', index), (file_run ops empty_file).1))
      × IsValid d' index
      × (contents d' ≡ (file_run ops empty_file).0.bytes)
opened_run fresh ops s t =
    let (v, e) = opened-IsValid fresh in
    let at_start : file_of (opened fresh, 0) ≡ empty_file =
      ap (λ (b : Bytes). let f : File = record { bytes = b; position = 0 } in f) e in
    let (st, run, v', file) =
      stream_run-refines fresh ops (opened fresh) 0 s v (start_size fresh (total_written ops) t) in
    (
      st.0,
      st.1,
      run ∙ ap (λ (f : File). some (st, (file_run ops f).1)) at_start,
      v',
      ap (λ (f : File). f.bytes) (file ∙ ap (λ (f : File). (file_run ops f).0) at_start),
    )

-- A stream that is created, used by any calls, closed and consumed hands over exactly the bytes that
-- the calls leave in an empty file; the answers of the calls are the file's, and the path is gone.
-- The counts of reads and the bytes written are below 2 ^ 63, and no call seeks below 0.
pub consume_stream-use_stream :
    (fresh : ℕ → ℕ) (p : Provider) (ops : List Op)
    → IsFresh p
    → All IsSound ops
    → total_written ops < half_word
    → let (p', path, h) = create_stream fresh p in
      (q : Provider) × (h' : Handle) × (use_stream fresh ops h p'
        ≡ some (q, h', (file_run ops empty_file).1))
      × Consumes path (consume_stream path (close h' q)) (file_run ops empty_file).0.bytes
unfolding create_stream
consume_stream-use_stream fresh p ops f s t =
    let (d', index, run, v, e) = opened_run fresh ops s t in
    let n = length p.cells in
    let path = p.stream_index in
    let i = (path + 1) % word in
    let cells = p.cells ++ opened fresh ∷ [] in
    let k = get_elem?-append_one p.cells (opened fresh) in
    let free = find_path-above p.paths path f in
    let rs = (file_run ops empty_file).1 in
    let cells' = set cells n d' in
    let q = at_path cells' n d' path i p.paths cells' in
    let h = handle cells' n d' path i p.paths index in
    (
      q,
      h,
      rw free (use_at cells n (opened fresh) path i p.paths fresh ops d' index rs k run),
      subst (Consumes path (consume_stream path (close h q))) e (
          close_then_consume (set cells n d') n d' path i p.paths index
            (get_elem?-set_self cells n d' (get_elem?-lt cells n (opened fresh) k)) v free),
    )
