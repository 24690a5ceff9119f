-- ===== src/Api/Stream/Provider.antt =====
-- `MemoryReadWriteStreamProvider` of source/api/api_trace_io.cpp. The buffers are shared by the
-- provider and the stream objects, so they stand in a heap; each method holds the mutex, so it is
-- one step. A path is the number of which it is the decimal text.
use radeon_developer_panel.Common.{
  ℕ, ◌+◌, ◌%◌, Bool, true, false, List, [], ◌∷◌, ◌++◌, Option, none, some, ◌==◌, if◌then◌else◌,
  Bytes, length, get_elem?, set,
}
use radeon_developer_panel.Api.Stream.Memory.{StreamData, word, new_stream_data}
use radeon_developer_panel.Api.Stream.File.{Op, Reply}
use radeon_developer_panel.Api.Stream.Run.{stream_run}

pub record Provider : Type 0 where
  pub cells : List StreamData  -- the heap: a `shared_ptr` is a place in it
  pub paths : List (ℕ × ℕ)  -- `data_`: the place of each path
  pub stream_index : ℕ

-- A `MemoryReadWriteStream`: its `data_` and `current_index_`.
pub record Handle : Type 0 where
  pub cell : ℕ
  pub current_index : ℕ

abbrev pub new_provider : Provider
new_provider = record { cells = []; paths = []; stream_index = 0 }

unfoldable pub find_path : List (ℕ × ℕ) → ℕ → Option ℕ
find_path [] path = none
find_path ((p, cell) ∷ paths) path = if p == path then some cell else find_path paths path

unfoldable pub erase_path : List (ℕ × ℕ) → ℕ → List (ℕ × ℕ)
erase_path [] path = []
erase_path ((p, cell) ∷ paths) path = if p == path then paths else (p, cell) ∷ erase_path paths path

-- `unordered_map::insert` leaves an entry that is there.
abbrev insert_path : List (ℕ × ℕ) → ℕ → ℕ → Option ℕ → List (ℕ × ℕ)
insert_path paths path cell none = (path, cell) ∷ paths
insert_path paths path cell (some old) = paths

abbrev set_open : List StreamData → ℕ → Bool → Option StreamData → List StreamData
set_open cells cell b none = cells
set_open cells cell b (some d) = set cells cell (record d { is_open = b })

-- `CreateStream`: the path, and the stream, whose constructor marks the data open.
unfoldable pub create_stream : (ℕ → ℕ) → Provider → Provider × ℕ × Handle
unfolding find_path new_stream_data
create_stream fresh p =
    let path = p.stream_index in
    let cell = length p.cells in
    (
      record {
        cells = p.cells ++ (record (new_stream_data fresh) { is_open = true }) ∷ [];
        paths = insert_path p.paths path cell (find_path p.paths path);
        stream_index = (path + 1) % word;
      },
      path,
      record { cell = cell; current_index = 0 },
    )

abbrev open_cell : Provider → Option ℕ → Provider × Option Handle
open_cell p none = (p, none)
open_cell p (some cell) = (
  record p { cells = set_open p.cells cell true (get_elem? p.cells cell) },
  some (record { cell = cell; current_index = 0 }),
)

-- `OpenReadWriteStream`: null for a path that is not there.
unfoldable pub open_read_write_stream : ℕ → Provider → Provider × Option Handle
unfolding find_path
open_read_write_stream path p = open_cell p (find_path p.paths path)

-- `MemoryReadWriteStream::Close`.
unfoldable pub close : Handle → Provider → Provider
close h p = record p { cells = set_open p.cells h.cell false (get_elem? p.cells h.cell) }

abbrev consume_cell : Provider → ℕ → Option StreamData → Provider × Option (ℕ × Bytes)
consume_cell p path none = (p, none)
consume_cell p path (some d) =
    if d.is_open
    then (p, none)
    else (record p { paths = erase_path p.paths path }, some (d.size, d.buffer))

abbrev consume_at : Provider → ℕ → Option ℕ → Provider × Option (ℕ × Bytes)
consume_at p path none = (p, none)
consume_at p path (some cell) = consume_cell p path (get_elem? p.cells cell)

-- `ConsumeStream`: false, or the size and the buffer of a stream that is closed; the path is gone.
unfoldable pub consume_stream : ℕ → Provider → Provider × Option (ℕ × Bytes)
unfolding find_path erase_path
consume_stream path p = consume_at p path (find_path p.paths path)

abbrev store_run :
    Provider
    → Handle
    → Option ((StreamData × ℕ) × List Reply)
    → Option (Provider × Handle × List Reply)
store_run p h none = none
store_run p h (some ((d, index), rs)) =
    some (record p { cells = set p.cells h.cell d }, record h { current_index = index }, rs)

abbrev run_cell :
    (ℕ → ℕ)
    → List Op
    → Provider
    → Handle
    → Option StreamData
    → Option (Provider × Handle × List Reply)
run_cell fresh ops p h none = none
run_cell fresh ops p h (some d) = store_run p h (stream_run fresh ops (d, h.current_index))

-- Calls on one stream object, with no other call between them.
unfoldable pub use_stream :
    (ℕ → ℕ) → List Op → Handle → Provider → Option (Provider × Handle × List Reply)
use_stream fresh ops h p = run_cell fresh ops p h (get_elem? p.cells h.cell)
