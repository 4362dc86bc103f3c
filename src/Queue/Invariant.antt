-- ===== src/Queue/Invariant.antt =====
-- What holds of a queue between any two steps of its producer and its consumer.
use native.Mathlib.Nat.{mod-lt, one-le-pow, pow-le-pow_right}
use Prim.Native.Nat.{bit_and}
use le_kv.Base.{
  ℕ, ◌+◌, ◌-◌, ◌%◌, ◌^◌, ◌<◌, ◌≤◌, some, ◌++◌, ◌≡◌, ◌≢◌, ap, sym, ◌∙◌, arith, Bool-cases, inl, inr,
  ltb, length, length-append, get_elem?,
}
use le_kv.Bytes.{Bytes}
use le_kv.Bytes.Endian.{slice, u64}
use le_kv.Queue.{SpscQueue, sub64, prepare_write, commit_write, peek, readable_bytes, consume}
use le_kv.Queue.Positions.{offset, sub64_lem, offset_next, offset_ne}
use le_kv.Queue.Memory.{
  write_at, length-write_at, get-write_at_out, get-write_at_in, slice-get, get-append_left,
  get-append_right,
}
use le_kv.Queue.Steps.{
  Producer, outside, reserved, filled, Consumer, waiting, looking, holding, System,
}

-- A reservation behind the committed bytes, which does not go round the end of the buffer and does
-- not reach what is not consumed. `c` is the capacity, `w` and `r` the counts committed and consumed.
abbrev pub InRoom : ℕ → ℕ → ℕ → ℕ → ℕ → Type 0
InRoom c w r at len = (at ≡ w % c) × (at + len ≤ c) × (w + len < r + c)

abbrev pub ProducerIsValid : ℕ → ℕ → ℕ → Bytes → Producer → Type 0
ProducerIsValid c w r buf outside = Unit
ProducerIsValid c w r buf (reserved at len) = InRoom c w r at len
ProducerIsValid c w r buf (filled at bs) =
    InRoom c w r at (length bs)
    × ((i : ℕ) → i < length bs → get_elem? buf (at + i) ≡ get_elem? bs i)

abbrev pub ConsumerIsValid : ℕ → Bytes → ℕ → Consumer → Type 0
ConsumerIsValid c committed r waiting = Unit
ConsumerIsValid c committed r (looking at n) =
    (at ≡ r % c) × (at + n ≤ c) × (r + n ≤ length committed)
ConsumerIsValid c committed r (holding bs) =
    (r + length bs ≤ length committed)
    × ((i : ℕ) → i < length bs → get_elem? bs i ≡ get_elem? committed (r + i))

-- The bytes that are committed and not consumed stand in the buffer, each at its offset.
abbrev pub Holds : ℕ → Bytes → Bytes → ℕ → Type 0
Holds c buf committed r =
    (i : ℕ) → r ≤ i → i < length committed → get_elem? buf (i % c) ≡ get_elem? committed i

-- The members of the queue, for a capacity 2 ^ k and the counts committed and consumed.
pub record IsRing (k w r : ℕ) (q : SpscQueue) : Type 0 where
  pub small : k < 64
  pub capacity : q.capacity ≡ 2 ^ k
  pub mask : q.mask ≡ 2 ^ k - 1
  pub size : length q.buffer ≡ 2 ^ k
  pub write : q.write_pos ≡ u64 w
  pub read : q.read_pos ≡ u64 r
  pub order : r ≤ w
  pub room : w < r + 2 ^ k

pub record IsValid (k : ℕ) (s : System) : Type 0 where
  pub ring : IsRing k (length s.committed) (length s.consumed) s.queue
  pub holds : Holds (2 ^ k) s.queue.buffer s.committed (length s.consumed)
  pub fifo : (i : ℕ) → i < length s.consumed → get_elem? s.consumed i ≡ get_elem? s.committed i
  pub producing :
      ProducerIsValid (2 ^ k) (length s.committed) (length s.consumed) s.queue.buffer s.producer
  pub consuming : ConsumerIsValid (2 ^ k) s.committed (length s.consumed) s.consumer

module _ {k w r : ℕ} {q : SpscQueue} (v : IsRing k w r q) where
  open v use {small, capacity, mask, size, write, read, order, room}

  pub capacity_pos : 0 < 2 ^ k
  capacity_pos = one-le-pow k 2 (omega arith)

  capacity_bound : 2 ^ k < 18446744073709551616
  capacity_bound =
      let most : 2 ^ k ≤ 2 ^ 63 = pow-le-pow_right (omega arith) {i = k} {j = 63} (omega arith) in
      omega arith

  used : sub64 q.write_pos q.read_pos ≡ w - r
  used = rw (write, read) (sub64_lem w r order (let b = capacity_bound in omega arith))

  write_offset : bit_and q.write_pos q.mask ≡ w % 2 ^ k
  write_offset = rw (write, mask) (offset k w small)

  read_offset : bit_and q.read_pos q.mask ≡ r % 2 ^ k
  read_offset = rw (read, mask) (offset k r small)

  pub prepare_write-InRoom :
      (at len : ℕ) → 0 < len → prepare_write len q ≡ some at → InRoom (2 ^ k) w r at len
  unfolding prepare_write
  prepare_write-InRoom at len p e =
      let b = capacity_bound in let l = mod-lt w capacity_pos in ground (arith, used, write_offset)

  pub look-InBounds :
      (at n : ℕ)
      → peek q ≡ some at
      → n ≤ readable_bytes q
      → (at ≡ r % 2 ^ k) × (at + n ≤ 2 ^ k) × (r + n ≤ w)
  unfolding peek readable_bytes
  look-InBounds at n e h =
      let b = capacity_bound in let l = mod-lt r capacity_pos in ground (arith, used, read_offset)

  pub commit_write-IsRing :
      (len : ℕ) → w + len < r + 2 ^ k → IsRing k (w + len) r (commit_write len q)
  unfolding commit_write
  commit_write-IsRing len h = record {
    small = small;
    capacity = capacity;
    mask = mask;
    size = size;
    write = omega arith;
    read = read;
    order = omega arith;
    room = h;
  }

  pub consume-IsRing : (len : ℕ) → r + len ≤ w → IsRing k w (r + len) (consume len q)
  unfolding consume
  consume-IsRing len h = record {
    small = small;
    capacity = capacity;
    mask = mask;
    size = size;
    write = write;
    read = omega arith;
    order = h;
    room = omega arith;
  }

  pub write_at-IsRing :
      (at : ℕ) (bs : Bytes) → IsRing k w r (record q { buffer = write_at q.buffer at bs })
  write_at-IsRing at bs = record {
    small = small;
    capacity = capacity;
    mask = mask;
    size = length-write_at q.buffer at bs ∙ size;
    write = write;
    read = read;
    order = order;
    room = room;
  }

  -- A reserved offset is the offset of no byte that waits for the consumer.
  pub reserved-ne :
      (at len j i : ℕ) → InRoom (2 ^ k) w r at len → j < len → r ≤ i → i < w → at + j ≢ i % 2 ^ k
  reserved-ne at len j i (here, fits, free) hj hr hw e =
      let there : (w + j) % 2 ^ k ≡ w % 2 ^ k + j =
        offset_next (2 ^ k) capacity_pos w j (omega arith) in
      let apart = offset_ne (2 ^ k) capacity_pos i (w + j - i) (omega arith) (omega arith) in
      let sum : i + (w + j - i) ≡ w + j = omega arith in
      apart (ap (λ x. x % 2 ^ k) sum ∙ omega arith)

  pub write_at-Holds :
      (at : ℕ) (bs committed : Bytes)
      → length committed ≡ w
      → InRoom (2 ^ k) w r at (length bs)
      → Holds (2 ^ k) q.buffer committed r
      → Holds (2 ^ k) (write_at q.buffer at bs) committed r
  write_at-Holds at bs committed n f h i lo hi =
      get-write_at_out q.buffer at bs (i % 2 ^ k)
        (λ j l. reserved-ne at (length bs) j i f l lo (omega arith))
      ∙ h i lo hi

  pub write_at-filled :
      (at : ℕ) (bs : Bytes)
      → InRoom (2 ^ k) w r at (length bs)
      → ProducerIsValid (2 ^ k) w r (write_at q.buffer at bs) (filled at bs)
  write_at-filled at bs f = (f, λ i l. get-write_at_in q.buffer at bs i (omega arith) l)

  pub commit-Holds :
      (at : ℕ) (bs committed : Bytes)
      → length committed ≡ w
      → ProducerIsValid (2 ^ k) w r q.buffer (filled at bs)
      → Holds (2 ^ k) q.buffer committed r
      → Holds (2 ^ k) q.buffer (committed ++ bs) r
  commit-Holds at bs committed n ((here, fits, free), same) h i lo hi =
      elim (Bool-cases (ltb i w)) [
        | inl old ↦ h i lo (ground arith) ∙ sym (get-append_left committed bs i (ground arith))
        | inr new ↦
            let after : w ≤ i = ground arith in
            let inside : i - w < length bs = omega (arith, length-append committed bs) in
            let there : i % 2 ^ k ≡ at + (i - w) =
              ap (λ x. x % 2 ^ k) (back after)
              ∙ (offset_next (2 ^ k) capacity_pos w (i - w) (omega arith) ∙ omega arith) in
            let index : length committed + (i - w) ≡ i = omega arith in
            ap (get_elem? q.buffer) there
            ∙ (same (i - w) inside
                ∙ (sym (get-append_right committed bs (i - w))
                    ∙ ap (get_elem? (committed ++ bs)) index))
      ]
    where
      back : w ≤ i → i ≡ w + (i - w)
      back l = omega arith

  -- The consumer copies the bytes that come next.
  pub copy-holding :
      (at n : ℕ) (bs committed : Bytes)
      → length committed ≡ w
      → ConsumerIsValid (2 ^ k) committed r (looking at n)
      → Holds (2 ^ k) q.buffer committed r
      → slice q.buffer at n ≡ some bs
      → ConsumerIsValid (2 ^ k) committed r (holding bs)
  copy-holding at n bs committed e (here, fits, known) h s =
      let (size_of, same) = slice-get q.buffer at n bs s in
      (
        omega arith,
        λ i l.
            let there : (r + i) % 2 ^ k ≡ at + i =
              offset_next (2 ^ k) capacity_pos r i (omega arith) ∙ omega arith in
            same i (omega arith)
            ∙ (ap (get_elem? q.buffer) (sym there) ∙ h (r + i) (omega arith) (omega arith)),
      )
