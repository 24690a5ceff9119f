-- ===== src/Api/Stream/File.antt =====
-- An abstract file, which the streams of source/api/api_trace_io.cpp implement: its bytes and a
-- position, with no capacity and no memory behind the end.
use radeon_developer_panel.Common.{
  ℕ, zero, suc, ◌+◌, List, [], ◌∷◌, ◌++◌, leb, if◌then◌else◌, Bytes, length, take, drop,
}
use radeon_developer_panel.Api.Stream.Memory.{ℤ, pos, negsuc}

pub record File : Type 0 where
  pub bytes : Bytes
  pub position : ℕ

-- The bytes from `i` on are replaced, and the file grows where they pass its end.
unfoldable pub overwrite : ℕ → Bytes → Bytes → Bytes
overwrite zero new old = new ++ drop (length new) old
overwrite (suc i) new [] = new
overwrite (suc i) new (b ∷ old) = b ∷ overwrite i new old

-- A call on a stream, and what it answers.
pub data Op : Type 0 where
  writes : Bytes → Op
  reads : ℕ → Op
  seeks : ℤ → Op

pub data Reply : Type 0 where
  wrote : ℕ → Reply
  got : Bytes → Reply
  moved rejected : Reply

abbrev pub file_seek : ℤ → File → File × Reply
file_seek (pos n) f =
    if leb n (length f.bytes) then (record f { position = n }, moved) else (f, rejected)
file_seek (negsuc n) f = (f, rejected)

-- The file at work.
unfoldable pub file_step : Op → File → File × Reply
unfolding overwrite
file_step (writes new) f = (
  record { bytes = overwrite f.position new f.bytes; position = f.position + length new },
  wrote (length new),
)
file_step (reads n) f =
    if leb (f.position + n) (length f.bytes)
    then (record f { position = f.position + n }, got (take n (drop f.position f.bytes)))
    else (f, rejected)
file_step (seeks p) f = file_seek p f

abbrev then_reply : Reply → File × List Reply → File × List Reply
then_reply r (f, rs) = (f, r ∷ rs)

unfoldable pub file_run : List Op → File → File × List Reply
unfolding file_step
file_run [] f = (f, [])
file_run (op ∷ ops) f = then_reply (file_step op f).1 (file_run ops (file_step op f).0)
