-- ===== src/Queue/Tests.antt =====
-- A queue of four bytes in use, and each theorem about the queue at an input.
use le_kv.Base.{ℕ, zero, suc, ◌*◌, ◌^◌, ◌<◌, ◌≤◌, [], ◌∷◌, ◌++◌, ◌≡◌, refl, ap, arith, length}
use le_kv.Bytes.{Bytes}
use le_kv.Queue.{make_queue, bit_ceil, smear, prepare_write, commit_write, peek, readable_bytes}
use le_kv.Queue.Ceil.{bit_ceil_power}
use le_kv.Queue.Memory.{write_at}
use le_kv.Queue.Steps.{
  System, reserve, fill, commit, look, start, Reach, here, next, outside, reserved, filled, looking,
}
use le_kv.Queue.Reachable.{Reach-fifo, Reach-apart, Writes, Reads}

bit_ceil_runs : bit_ceil 5 ≡ 8
unfolding bit_ceil smear
bit_ceil_runs = refl

bit_ceil_power_example :
    (k : ℕ) × (bit_ceil 5 ≡ 2 ^ k) × (k < 64) × (5 ≤ 2 ^ k) × (0 < 5 → 2 ^ k < 2 * 5)
bit_ceil_power_example = bit_ceil_power 5 (omega arith)

zeros : ℕ → Bytes
zeros zero = []
zeros (suc n) = 0 ∷ zeros n

length-zeros : (n : ℕ) → length (zeros n) ≡ n
unfolding zeros
length-zeros zero = refl
length-zeros (suc n) = ap suc (length-zeros n)

abbrev fresh : System
fresh = start 3 zeros

fresh_run :
    make_queue 3 zeros
    ≡ record { write_pos = 0; read_pos = 0; capacity = 4; mask = 3; buffer = 0 ∷ 0 ∷ 0 ∷ 0 ∷ [] }
unfolding make_queue bit_ceil smear zeros
fresh_run = refl

abbrev taken_up : System
taken_up = record fresh { producer = reserved 0 2 }

abbrev written : System
written = record taken_up {
  queue = record (taken_up.queue) { buffer = write_at taken_up.queue.buffer 0 (7 ∷ 8 ∷ []) };
  producer = filled 0 (7 ∷ 8 ∷ []);
}

abbrev shared : System
shared = record written {
  queue = commit_write 2 written.queue;
  producer = outside;
  committed = [] ++ (7 ∷ 8 ∷ []);
}

-- The consumer looks at a byte while the producer reserves another.
abbrev both : System
both = record shared { consumer = looking 0 1; producer = reserved 2 1 }

both_reached : Reach fresh both
unfolding make_queue bit_ceil smear zeros prepare_write commit_write peek readable_bytes write_at
both_reached =
    next
      (next
        (next
          (next (next here (reserve 0 2 refl (omega arith) refl)) (fill 0 2 (7 ∷ 8 ∷ []) refl refl))
          (commit 0 (7 ∷ 8 ∷ []) refl))
        (look 0 1 refl refl (omega arith)))
      (reserve 2 1 refl (omega arith) refl)

Reach-fifo_example : (rest : Bytes) × ([] ++ rest ≡ 7 ∷ 8 ∷ [])
Reach-fifo_example = Reach-fifo 3 zeros (omega arith) length-zeros both_reached

Reach-apart_example :
    (Writes both.producer 2 → 2 < length both.queue.buffer)
    × (Reads both.consumer 2 → 2 < length both.queue.buffer)
    × (Writes both.producer 2 → ¬ (Reads both.consumer 2))
Reach-apart_example = Reach-apart 3 zeros (omega arith) length-zeros both_reached 2
