-- ===== src/Queue.antt =====
-- common/common.h (bit_ceil) and logger/spsc_queue.cpp: a ring buffer of bytes between one producer
-- and one consumer. `size_t` has 64 bits; the buffer is a list of as many bytes as the capacity.
pub mod Bits
pub mod Ceil
pub mod Positions
pub mod Memory
pub mod Steps
pub mod Invariant
pub mod Fifo
pub mod Reachable
pub mod Space
mod Tests
use Prim.Native.Nat.{bit_and, bit_or}
use le_kv.Base.{
  ℕ, zero, suc, min, ◌+◌, ◌-◌, ◌*◌, ◌/◌, ◌%◌, ◌^◌, Bool, true, false, Option, none, some, List, [],
  ◌∷◌, ◌++◌, ◌==◌, ltb, leb, if◌then◌else◌, length, take, drop,
}
use le_kv.Bytes.{Bytes}
use le_kv.Bytes.Endian.{u64}

-- A subtraction of `size_t`.
abbrev pub sub64 : ℕ → ℕ → ℕ
sub64 a b = u64 (a + 18446744073709551616 - b)

-- The loop of bit_ceil: rounds left, `shift` and `n`.
unfoldable pub smear : ℕ → ℕ → ℕ → ℕ
smear zero shift n = n
smear (suc left) shift n = elim (ltb shift 64) [
  | true ↦ smear left (shift * 2) (bit_or n (n / 2 ^ shift))
  | false ↦ n
]

-- bit_ceil. The shift doubles from 1 to 64, so the loop makes six rounds.
unfoldable pub bit_ceil : ℕ → ℕ
bit_ceil n = if leb n 1 then 1 else u64 (smear 7 1 (n - 1) + 1)

-- SpscQueue. A pointer into the buffer is its offset, and `nullptr` is `none`.
pub record SpscQueue : Type 0 where
  pub write_pos : ℕ
  pub read_pos : ℕ
  pub capacity : ℕ
  pub mask : ℕ
  pub buffer : Bytes

-- The constructor. What the buffer holds at first is arbitrary; its length is the capacity.
unfoldable pub make_queue : ℕ → (ℕ → Bytes) → SpscQueue
make_queue capacity allocate =
    let size = bit_ceil (bit_or capacity 1) in
    record {
      write_pos = 0;
      read_pos = 0;
      capacity = size;
      mask = sub64 size 1;
      buffer = allocate size;
    }

-- prepare_write
unfoldable pub prepare_write : ℕ → SpscQueue → Option ℕ
prepare_write len q =
    let used = sub64 q.write_pos q.read_pos in
    let pos = bit_and q.write_pos q.mask in
    if len == 0
    then some pos
    else if ltb (sub64 (sub64 q.capacity used) 1) len
    then none
    else if ltb (sub64 q.capacity pos) len
    then none
    else some pos

-- commit_write
unfoldable pub commit_write : ℕ → SpscQueue → SpscQueue
commit_write len q = record q { write_pos = u64 (q.write_pos + len) }

-- writable_bytes
unfoldable pub writable_bytes : SpscQueue → ℕ
writable_bytes q =
    let free_total = sub64 (sub64 q.capacity (sub64 q.write_pos q.read_pos)) 1 in
    let pos = bit_and q.write_pos q.mask in min free_total (sub64 q.capacity pos)

-- peek
unfoldable pub peek : SpscQueue → Option ℕ
peek q = if q.read_pos == q.write_pos then none else some (bit_and q.read_pos q.mask)

-- readable_bytes
unfoldable pub readable_bytes : SpscQueue → ℕ
readable_bytes q =
    let readable_total = sub64 q.write_pos q.read_pos in
    if readable_total == 0
    then 0
    else min readable_total (sub64 q.capacity (bit_and q.read_pos q.mask))

-- consume
unfoldable pub consume : ℕ → SpscQueue → SpscQueue
consume len q = record q { read_pos = u64 (q.read_pos + len) }

-- empty
unfoldable pub is_drained : SpscQueue → Bool
is_drained q = q.read_pos == q.write_pos
