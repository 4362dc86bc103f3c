-- ===== src/Master/Interface.antt =====
-- What the master relies on beside its own code: the connections to the data nodes, the file
-- system, the clock, and nlohmann's JSON. None of it is under the program's control.
use le_kv.Base.{ℕ, ◌≤◌, ◌<◌, Bool, Option, some, ◌≡◌, ◌⊎◌, ◌++◌, length}
use le_kv.Bytes.{Bytes}
use le_kv.Bytes.Endian.{read32}
use le_kv.Routing.{Table}

pub record Env : Type 1 where
  pub World : Type 0
  -- Whether the master holds an open connection to the node with this id.
  pub connected : World → ℕ → Bool
  -- RpcClient::Send of a request, then RpcClient::RecvFrame, on that connection: the frame that
  -- comes back, if both succeed.
  pub call : World → ℕ → Bytes → Option Bytes × World
  -- RecvFrame hands out a frame with the length that its header says, which is at least a header's.
  pub call-frame :
      (w : World) (node : ℕ) (req frame : Bytes)
      → (call w node req).0 ≡ some frame
      → (10 ≤ length frame) × (length frame < 4294967296) × (read32 frame 0 ≡ some (length frame))
  -- The text of tablets.json, if the file is there and can be read.
  pub file : World → Option Bytes
  -- Whether the temporary file can be opened for writing.
  pub can_open : World → Bool
  -- The temporary file is written, closed and renamed to tablets.json. SaveTablets looks at no result
  -- of the write and the close.
  pub replace_file : World → Bytes → World
  -- A write may fail on its way, and the file is then a first part of the text; where the rename
  -- fails, the file stays.
  pub file-replace_file :
      (w : World) (text : Bytes)
      → ((part rest : Bytes) × (part ++ rest ≡ text) × (file (replace_file w text) ≡ some part))
        ⊎ (file (replace_file w text) ≡ file w)
  -- The JSON text of the table's three fields; `none` if the library throws, as it does at a string
  -- that is not UTF-8.
  pub dump : Table → Option Bytes
  -- The table that a JSON text holds; `none` if the library throws.
  pub parse : Bytes → Option Table
  -- JSON is read back as it was written.
  pub parse-dump : (t : Table) (text : Bytes) → dump t ≡ some text → parse text ≡ some t
  -- The milliseconds between two readings of the clock.
  pub elapsed_ms : World → World → ℕ
