-- ===== src/Queue/Space.antt =====
-- How much a producer can write.
use le_kv.Base.{ℕ, ◌<◌, none, some, ◌≡◌, arith, leb, if◌then◌else◌}
use Prim.Native.Nat.{bit_and}
use le_kv.Queue.{SpscQueue, prepare_write, writable_bytes}

-- For a length above 0, prepare_write gives the write offset exactly when writable_bytes is at least
-- the length, and nullptr otherwise.
pub prepare_write-writable_bytes :
    (len : ℕ) (q : SpscQueue)
    → 0 < len
    → prepare_write len q
      ≡ (if leb len (writable_bytes q) then some (bit_and q.write_pos q.mask) else none)
unfolding prepare_write writable_bytes
prepare_write-writable_bytes len q h = ground arith
