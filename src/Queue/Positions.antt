-- ===== src/Queue/Positions.antt =====
-- Positions of the ring: a position is an unbounded count, `write_pos_` and `read_pos_` are its
-- remainders by 2^64, and an offset is its remainder by the capacity.
use native.Mathlib.Nat.{
  mul_assoc, pow-suc, mod-mod_of_dvd, dvd-mul_right, mod-add-mod, mod-eq_of_lt, mod-eq-sub-mod,
  mod-lt,
}
use Prim.Native.Nat.{bit_and}
use le_kv.Base.{
  ℕ, zero, suc, ◌+◌, ◌-◌, ◌*◌, ◌%◌, ◌^◌, ◌<◌, ◌≤◌, ◌≡◌, ◌≢◌, ap, sym, ◌∙◌, arith, Bool-cases, inl,
  inr, ltb,
}
use le_kv.Bytes.Endian.{u64}
use le_kv.Queue.{sub64}
use le_kv.Queue.Bits.{and_mask}

pow_split : (k j : ℕ) → 2 ^ (k + j) ≡ 2 ^ k * 2 ^ j
pow_split k zero = let same : k + 0 ≡ k = omega arith in rw same (omega arith)
pow_split k (suc j) =
    let step : k + suc j ≡ suc (k + j) = omega arith in
    rw (step, pow-suc 2 (k + j), pow_split k j, pow-suc 2 j) (mul_assoc (2 ^ k) (2 ^ j) 2)

-- The offset of a position.
pub offset : (k a : ℕ) → k < 64 → bit_and (u64 a) (2 ^ k - 1) ≡ a % 2 ^ k
offset k a h = and_mask k (u64 a) ∙ wrap
  where
    wrap : a % 18446744073709551616 % 2 ^ k ≡ a % 2 ^ k
    wrap =
        let whole : k + (64 - k) ≡ 64 = omega arith in
        let divides : 2 ^ 64 ≡ 2 ^ k * 2 ^ (64 - k) =
          ap (λ x. 2 ^ x) (sym whole) ∙ pow_split k (64 - k) in
        rw divides (mod-mod_of_dvd (2 ^ k) a (dvd-mul_right (2 ^ k) (2 ^ (64 - k))))

pub sub64_lem : (a b : ℕ) → b ≤ a → a < b + 18446744073709551616 → sub64 (u64 a) (u64 b) ≡ a - b
sub64_lem a b h l = omega arith

module _ (c : ℕ) (pos : 0 < c) where
  -- Positions that follow each other in the buffer.
  pub offset_next : (a j : ℕ) → a % c + j < c → (a + j) % c ≡ a % c + j
  offset_next a j h = sym (mod-add-mod a c j) ∙ mod-eq_of_lt h

  -- Positions less than the capacity apart have different offsets.
  pub offset_ne : (a d : ℕ) → 0 < d → d < c → (a + d) % c ≢ a % c
  offset_ne a d p h = elim (Bool-cases (ltb (a % c + d) c)) [
    | inl below ↦ omega (arith, offset_next a d (ground arith))
    | inr over ↦
        let big : c ≤ a % c + d = ground arith in
        omega (
          arith,
          mod-add-mod a c d,
          mod-eq-sub-mod {n = a % c + d} {m = c} big,
          mod-eq_of_lt {n = a % c + d - c} {m = c} (omega (arith, mod-lt a pos)),
          mod-lt a pos,
        )
  ]
