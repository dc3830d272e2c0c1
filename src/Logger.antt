-- ===== src/Logger.antt =====
-- The callback of `run_logger` in sw/ludp_host.py, which gathers payloads and writes them to the
-- output file in blocks.
pub mod Output
pub mod Session
pub mod Alive
pub mod Phases
pub mod Fresh
pub mod Recorded
use mini_corundum.Base.{ℕ, ◌+◌, ◌*◌, List, [], ◌∷◌, ◌++◌, length, leb, if◌then◌else◌}
use mini_corundum.Host.State.{LudpDataPacket}

-- `output` is what the file holds so far.
pub record Logger : Type 0 where
  pub output : List ℕ
  pub write_buf : List (List ℕ)
  pub write_buf_size : ℕ

abbrev pub flush_threshold : ℕ
flush_threshold = 4 * 1024 * 1024

-- `b"".join(bufs)`
unfoldable pub join : List (List ℕ) → List ℕ
join [] = []
join (b ∷ bufs) = b ++ join bufs

-- an empty file and an empty buffer
abbrev pub opened : Logger
opened = record { output = []; write_buf = []; write_buf_size = 0 }

unfoldable pub on_data : LudpDataPacket → Logger → Logger
on_data pkt w =
    let buf = w.write_buf ++ pkt.payload ∷ [] in
    let size = w.write_buf_size + length pkt.payload in
    if leb flush_threshold size
    then record { output = w.output ++ join buf; write_buf = []; write_buf_size = 0 }
    else record w { write_buf = buf; write_buf_size = size }

-- `if write_buf: output_file.write(b"".join(write_buf)); write_buf.clear()`
flush_rest : List (List ℕ) → Logger → Logger
flush_rest [] w = w
flush_rest (b ∷ bufs) w = record w { output = w.output ++ join (b ∷ bufs); write_buf = [] }

unfoldable pub flush : Logger → Logger
unfolding flush_rest
flush w = flush_rest w.write_buf w
