-- ===== src/Queue/Steps.antt =====
-- The producer and the consumer of a queue, interleaved in any order. A step is one call, or one
-- copy into or out of the buffer; each call reads the other side's position once, atomically.
use le_kv.Base.{ℕ, ◌<◌, ◌≤◌, some, [], ◌++◌, ◌≡◌, length}
use le_kv.Bytes.{Bytes}
use le_kv.Bytes.Endian.{slice}
use le_kv.Queue.{SpscQueue, make_queue, prepare_write, commit_write, peek, readable_bytes, consume}
use le_kv.Queue.Memory.{write_at}

-- The producer is between calls, holds a reserved offset and length, or has copied bytes there.
pub data Producer : Type 0 where
  outside : Producer
  reserved : ℕ → ℕ → Producer
  filled : ℕ → Bytes → Producer

-- The consumer is between calls, looks at an offset and a length, or has copied bytes from there.
pub data Consumer : Type 0 where
  waiting : Consumer
  looking : ℕ → ℕ → Consumer
  holding : Bytes → Consumer

-- The queue, the two threads, and all the bytes that were committed and consumed so far.
pub record System : Type 0 where
  pub queue : SpscQueue
  pub producer : Producer
  pub consumer : Consumer
  pub committed : Bytes
  pub consumed : Bytes

-- The producer may copy into its reservation several times before it commits. The consumer consumes
-- the bytes that it copied.
pub data Step (s : System) : System → Type 0 where
  reserve :
      (at len : ℕ)
      → s.producer ≡ outside
      → 0 < len
      → prepare_write len s.queue ≡ some at
      → Step s (record s { producer = reserved at len })
  fill :
      (at len : ℕ) (bs : Bytes)
      → s.producer ≡ reserved at len
      → length bs ≡ len
      → Step s (record s {
        queue = record (s.queue) { buffer = write_at s.queue.buffer at bs };
        producer = filled at bs;
      })
  refill :
      (at : ℕ) (old bs : Bytes)
      → s.producer ≡ filled at old
      → length bs ≡ length old
      → Step s (record s {
        queue = record (s.queue) { buffer = write_at s.queue.buffer at bs };
        producer = filled at bs;
      })
  commit :
      (at : ℕ) (bs : Bytes)
      → s.producer ≡ filled at bs
      → Step s (record s {
        queue = commit_write (length bs) s.queue;
        producer = outside;
        committed = s.committed ++ bs;
      })
  look :
      (at n : ℕ)
      → s.consumer ≡ waiting
      → peek s.queue ≡ some at
      → n ≤ readable_bytes s.queue
      → Step s (record s { consumer = looking at n })
  copy :
      (at n : ℕ) (bs : Bytes)
      → s.consumer ≡ looking at n
      → slice s.queue.buffer at n ≡ some bs
      → Step s (record s { consumer = holding bs })
  release :
      (bs : Bytes)
      → s.consumer ≡ holding bs
      → Step s (record s {
        queue = consume (length bs) s.queue;
        consumer = waiting;
        consumed = s.consumed ++ bs;
      })

-- Both threads before their first call, on a new queue.
abbrev pub start : ℕ → (ℕ → Bytes) → System
start capacity allocate = record {
  queue = make_queue capacity allocate;
  producer = outside;
  consumer = waiting;
  committed = [];
  consumed = [];
}

pub data Reach (s : System) : System → Type 0 where
  here : Reach s s
  next : {t u : System} → Reach s t → Step t u → Reach s u
