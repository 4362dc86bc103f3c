-- ===== src/Queue/Fifo.antt =====
-- The consumer gets the bytes that the producer committed, in order, however the two interleave.
use le_kv.Base.{
  ℕ, ◌+◌, ◌-◌, ◌^◌, ◌<◌, ◌≤◌, ◌++◌, ◌≡◌, refl, ap, sym, ◌∙◌, arith, Bool-cases, inl, inr, ltb,
  length, length-append, get_elem?,
}
use le_kv.Bytes.{Bytes}
use le_kv.Queue.{commit_write, consume}
use le_kv.Queue.Memory.{write_at, get-append_left, get-append_right}
use le_kv.Queue.Steps.{
  Producer, outside, reserved, filled, Consumer, waiting, looking, holding, System, Step, reserve,
  fill, refill, commit, look, copy, release,
}
use le_kv.Queue.Invariant.{
  IsValid, InRoom, ProducerIsValid, ConsumerIsValid, prepare_write-InRoom, look-InBounds,
  commit_write-IsRing, consume-IsRing, write_at-IsRing, write_at-Holds, write_at-filled,
  commit-Holds, copy-holding,
}

module _ {k : ℕ} {s : System} (v : IsValid k s) where
  open v use {ring, holds, fifo, producing, consuming}

  -- What the producer holds in a given state.
  producing_at :
      (p : Producer)
      → s.producer ≡ p
      → ProducerIsValid (2 ^ k) (length s.committed) (length s.consumed) s.queue.buffer p
  producing_at p e = rw e at producing

  consuming_at :
      (c : Consumer) → s.consumer ≡ c → ConsumerIsValid (2 ^ k) s.committed (length s.consumed) c
  consuming_at c e = rw e at consuming

  -- A copy into a reservation.
  write-IsValid :
      (at : ℕ) (bs : Bytes)
      → InRoom (2 ^ k) (length s.committed) (length s.consumed) at (length bs)
      → IsValid k (record s {
        queue = record (s.queue) { buffer = write_at s.queue.buffer at bs };
        producer = filled at bs;
      })
  write-IsValid at bs f = record {
    ring = write_at-IsRing ring at bs;
    holds = write_at-Holds ring at bs s.committed refl f holds;
    fifo = fifo;
    producing = write_at-filled ring at bs f;
    consuming = consuming;
  }

  -- The consumer's bytes, seen in a longer history.
  later_consuming :
      (c : Consumer) (bs : Bytes)
      → ConsumerIsValid (2 ^ k) s.committed (length s.consumed) c
      → ConsumerIsValid (2 ^ k) (s.committed ++ bs) (length s.consumed) c
  later_consuming waiting bs h = tt
  later_consuming (looking at n) bs h = (h.0, h.1, omega (arith, length-append s.committed bs, h.2))
  later_consuming (holding xs) bs h = (
    omega (arith, length-append s.committed bs, h.0),
    λ i l.
        h.1 i l ∙ sym (get-append_left s.committed bs (length s.consumed + i) (omega (arith, h.0))),
  )

  commit-IsValid :
      (at : ℕ) (bs : Bytes)
      → s.producer ≡ filled at bs
      → IsValid k (record s {
        queue = commit_write (length bs) s.queue;
        producer = outside;
        committed = s.committed ++ bs;
      })
  unfolding commit_write
  commit-IsValid at bs e =
      let p = producing_at (filled at bs) e in
      let longer = length-append s.committed bs in
      let behind = ring.order in
      record {
        ring = rw longer (commit_write-IsRing ring (length bs) p.0.2);
        holds = commit-Holds ring at bs s.committed refl p holds;
        fifo = λ i l. fifo i l ∙ sym (get-append_left s.committed bs i (omega arith));
        producing = tt;
        consuming = later_consuming s.consumer bs consuming;
      }

  -- The producer's reservation stays good as the consumer goes on.
  later_producing :
      (p : Producer) (r : ℕ)
      → length s.consumed ≤ r
      → ProducerIsValid (2 ^ k) (length s.committed) (length s.consumed) s.queue.buffer p
      → ProducerIsValid (2 ^ k) (length s.committed) r s.queue.buffer p
  later_producing outside r l h = tt
  later_producing (reserved at len) r l h = (h.0, h.1, omega (arith, h.2))
  later_producing (filled at bs) r l h = ((h.0.0, h.0.1, omega (arith, h.0.2)), h.1)

  longer_fifo :
      (bs : Bytes)
      → ConsumerIsValid (2 ^ k) s.committed (length s.consumed) (holding bs)
      → (i : ℕ) → i < length (s.consumed ++ bs)
      → get_elem? (s.consumed ++ bs) i ≡ get_elem? s.committed i
  longer_fifo bs h i l = elim (Bool-cases (ltb i (length s.consumed))) [
    | inl old ↦ get-append_left s.consumed bs i (ground arith) ∙ fifo i (ground arith)
    | inr new ↦
        let after : length s.consumed ≤ i = ground arith in
        let index : length s.consumed + (i - length s.consumed) ≡ i = omega arith in
        ap (get_elem? (s.consumed ++ bs)) (sym index)
        ∙ (get-append_right s.consumed bs (i - length s.consumed)
            ∙ (h.1 (i - length s.consumed) (omega (arith, length-append s.consumed bs))
                ∙ ap (get_elem? s.committed) index))
  ]

  release-IsValid :
      (bs : Bytes)
      → s.consumer ≡ holding bs
      → IsValid k (record s {
        queue = consume (length bs) s.queue;
        consumer = waiting;
        consumed = s.consumed ++ bs;
      })
  unfolding consume
  release-IsValid bs e =
      let c = consuming_at (holding bs) e in
      let longer = length-append s.consumed bs in
      record {
        ring = rw longer (consume-IsRing ring (length bs) c.0);
        holds = λ i lo hi. holds i (omega arith) hi;
        fifo = longer_fifo bs c;
        producing = later_producing s.producer (length (s.consumed ++ bs)) (omega arith) producing;
        consuming = tt;
      }

-- Every step keeps the invariant.
pub Step-IsValid : {k : ℕ} {s t : System} → IsValid k s → Step s t → IsValid k t
Step-IsValid v (reserve at len idle p e) = record {
  ring = v.ring;
  holds = v.holds;
  fifo = v.fifo;
  producing = prepare_write-InRoom (v.ring) at len p e;
  consuming = v.consuming;
}
Step-IsValid v (fill at len bs e n) =
    write-IsValid v at bs (rw n (producing_at v (reserved at len) e))
Step-IsValid v (refill at old bs e n) =
    write-IsValid v at bs (rw n (producing_at v (filled at old) e).0)
Step-IsValid v (commit at bs e) = commit-IsValid v at bs e
Step-IsValid v (look at n e p l) = record {
  ring = v.ring;
  holds = v.holds;
  fifo = v.fifo;
  producing = v.producing;
  consuming = look-InBounds (v.ring) at n p l;
}
Step-IsValid {k} {s} v (copy at n bs e h) = record {
  ring = v.ring;
  holds = v.holds;
  fifo = v.fifo;
  producing = v.producing;
  consuming =
      copy-holding (v.ring) at n bs s.committed refl (consuming_at v (looking at n) e) (v.holds) h;
}
Step-IsValid v (release bs e) = release-IsValid v bs e
