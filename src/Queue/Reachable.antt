-- ===== src/Queue/Reachable.antt =====
-- From a new queue on: the order of the bytes, and the memory that the two threads touch.
use Prim.Native.Nat.{bit_or}
use native.Mathlib.Nat.{one-le-pow, pow-le-pow_right}
use le_kv.Base.{ℕ, ◌+◌, ◌-◌, ◌/◌, ◌%◌, ◌^◌, ◌<◌, ◌≤◌, ◌++◌, ◌≡◌, refl, ◌∙◌, arith, length}
use le_kv.Bytes.{Bytes}
use le_kv.Queue.{make_queue, bit_ceil}
use le_kv.Queue.Bits.{or_digit, or_nothing}
use le_kv.Queue.Ceil.{bit_ceil_power}
use le_kv.Queue.Memory.{prefix_of_get}
use le_kv.Queue.Steps.{
  Producer, outside, reserved, filled, Consumer, waiting, looking, holding, System, start, Reach,
  here, next,
}
use le_kv.Queue.Invariant.{
  IsRing, IsValid, InRoom, ProducerIsValid, ConsumerIsValid, reserved-ne, capacity_pos,
}
use le_kv.Queue.Positions.{offset_next}
use le_kv.Queue.Fifo.{Step-IsValid}

or_one-le : (n : ℕ) → bit_or n 1 ≤ n + 1
or_one-le n = omega (arith, or_digit n 1, or_nothing (n / 2) (n / 2) (omega arith))

below : (k : ℕ) → k < 64 → 2 ^ k < 18446744073709551616
below k h =
    let most : 2 ^ k ≤ 2 ^ 63 = pow-le-pow_right (omega arith) {i = k} {j = 63} (omega arith) in
    omega arith

module _ (size : ℕ) (allocate : ℕ → Bytes) (h : size < 2 ^ 63)
    (sized : (n : ℕ) → length (allocate n) ≡ n) where
  make_queue-IsRing :
      (k : ℕ) → k < 64 → bit_ceil (bit_or size 1) ≡ 2 ^ k → IsRing k 0 0 (make_queue size allocate)
  unfolding make_queue
  make_queue-IsRing k small e = record {
    small = small;
    capacity = e;
    mask = rw e (let b = below k small in let o = one-le-pow k 2 (omega arith) in omega arith);
    size = sized (bit_ceil (bit_or size 1)) ∙ e;
    write = refl;
    read = refl;
    order = omega arith;
    room = let o = one-le-pow k 2 (omega arith) in omega arith;
  }

  start-IsValid : (k : ℕ) × IsValid k (start size allocate)
  start-IsValid =
      let (k, e, small, l, u) = bit_ceil_power (bit_or size 1) (omega (arith, or_one-le size)) in
      (
        k,
        record {
          ring = make_queue-IsRing k small e;
          holds = λ i lo hi. absurd (omega arith);
          fifo = λ i l. absurd (omega arith);
          producing = tt;
          consuming = tt;
        },
      )

  Reach-IsValid : {s : System} → Reach (start size allocate) s → (k : ℕ) × IsValid k s
  Reach-IsValid here = start-IsValid
  Reach-IsValid (next r st) = let (k, v) = Reach-IsValid r in (k, Step-IsValid v st)

  -- However the producer and the consumer interleave on a new queue, of a capacity below 2^63 and
  -- with a buffer as long as asked for, the bytes that were consumed are the first of the bytes that
  -- were committed, in their order.
  pub Reach-fifo :
      {s : System}
      → Reach (start size allocate) s
      → (rest : Bytes) × (s.consumed ++ rest ≡ s.committed)
  Reach-fifo {s} r =
      let (k, v) = Reach-IsValid r in
      let order = v.ring.order in prefix_of_get s.consumed s.committed order (v.fifo)

-- The offsets that the producer may write to, and those that the consumer may read from.
abbrev pub Writes : Producer → ℕ → Type 0
Writes outside x = ⊥
Writes (reserved at len) x = (at ≤ x) × (x < at + len)
Writes (filled at bs) x = (at ≤ x) × (x < at + length bs)

abbrev pub Reads : Consumer → ℕ → Type 0
Reads waiting x = ⊥
Reads (looking at n) x = (at ≤ x) × (x < at + n)
Reads (holding bs) x = ⊥

module _ {k : ℕ} {s : System} (v : IsValid k s) where
  room_for :
      (p : Producer)
      → ProducerIsValid (2 ^ k) (length s.committed) (length s.consumed) s.queue.buffer p
      → (x : ℕ) → Writes p x
      → (at : ℕ) × (len : ℕ) × InRoom (2 ^ k) (length s.committed) (length s.consumed) at len
        × (at ≤ x)
        × (x < at + len)
  room_for outside h x w = absurd w
  room_for (reserved at len) h x w = (at, len, h, w.0, w.1)
  room_for (filled at bs) h x w = (at, length bs, h.0, w.0, w.1)

  position_of :
      (c : Consumer)
      → ConsumerIsValid (2 ^ k) s.committed (length s.consumed) c
      → (x : ℕ) → Reads c x
      → (i : ℕ) × (length s.consumed ≤ i) × (i < length s.committed) × (i % 2 ^ k ≡ x) × (x < 2 ^ k)
  position_of waiting h x r = absurd r
  position_of (looking at n) (first, fits, known) x r = (
    length s.consumed + (x - at),
    omega arith,
    omega (arith, r.0, r.1),
    offset_next (2 ^ k) (capacity_pos (v.ring)) (length s.consumed) (x - at)
          (omega (arith, r.0, r.1))
        ∙ omega (arith, r.0),
    omega (arith, r.1),
  )
  position_of (holding bs) h x r = absurd r

  apart : (x : ℕ) → Writes s.producer x → ¬ (Reads s.consumer x)
  apart x w r =
      let (at, len, f, lo, hi) = room_for s.producer (v.producing) x w in
      let (i, ilo, ihi, e, b) = position_of s.consumer (v.consuming) x r in
      reserved-ne (v.ring) at len (x - at) i f (omega arith) ilo ihi (omega arith)

module _ (size : ℕ) (allocate : ℕ → Bytes) (h : size < 2 ^ 63)
    (sized : (n : ℕ) → length (allocate n) ≡ n) where
  -- However the two interleave on a new queue, of a capacity below 2^63 and with a buffer as long as
  -- asked for, both stay inside the buffer, and the consumer never reads a byte that the producer may
  -- be writing.
  pub Reach-apart :
      {s : System}
      → Reach (start size allocate) s
      → (x : ℕ)
      → (Writes s.producer x → x < length s.queue.buffer)
        × (Reads s.consumer x → x < length s.queue.buffer)
        × (Writes s.producer x → ¬ (Reads s.consumer x))
  Reach-apart {s} r x =
      let (k, v) = Reach-IsValid size allocate h sized r in
      let length_of = v.ring.size in
      (
        λ w.
            let (at, len, f, lo, hi) = room_for v s.producer (v.producing) x w in
            omega (arith, f.1),
        λ p. let (i, lo, hi, e, b) = position_of v s.consumer (v.consuming) x p in omega arith,
        apart v x,
      )
