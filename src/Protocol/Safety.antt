-- ===== src/Protocol/Safety.antt =====
-- When TryDecode stays inside its buffer, and what it makes of each buffer.
use le_kv.Base.{
  ℕ, ◌+◌, ◌-◌, ◌<◌, ◌≤◌, ◌≡◌, ◌≢◌, none, some, ◌∷◌, arith, length, length-take, length-drop, drop,
  get_elem?, get_elem?-lt, Option-cases, ◌⊎◌, inl, inr,
}
use le_kv.Bytes.{Bytes}
use le_kv.Bytes.Endian.{u32, read32, head32}
use le_kv.Protocol.{magic, version, Decoded, rejected, decoded, try_decode}

-- What the verdict of TryDecode says of the buffer: fewer bytes than a header or than the frame
-- length it announces; a wrong magic or version byte; or a whole frame, whose bytes after the
-- header are the payload.
abbrev pub Explains : Bytes → ℕ → Decoded → Type 0
Explains buf f (rejected n) = ((n ≡ 0) × (length buf < f)) ⊎ ((n ≡ 1) × (f ≤ length buf))
Explains buf f (decoded n r p) = (n ≡ f) × (f ≤ length buf) × (10 + length p ≡ f) × (10 ≤ f)

module _ (buf : Bytes) (f : ℕ) (e : read32 buf 0 ≡ some f) (hi : f < 4294967296) where
  try_decode-Explains :
      (d : Decoded) → 10 ≤ length buf → 10 ≤ f → try_decode buf ≡ some d → Explains buf f d
  unfolding try_decode
  try_decode-Explains (rejected n) h lo r = ground arith
  try_decode-Explains (decoded n q p) h lo r =
      ground (arith, length-take (u32 (f + 4294967296 - 10)) (drop 10 buf), length-drop 10 buf)

pub get_elem?-ne-none : (i : ℕ) (buf : Bytes) → i < length buf → get_elem? buf i ≢ none
get_elem?-ne-none i buf h = let (x, e) = get_elem?-lt buf i h in ground arith

head32-ne-none : (buf : Bytes) → 4 ≤ length buf → head32 buf ≢ none
head32-ne-none (a ∷ b ∷ c ∷ d ∷ r) h = ground arith
head32-ne-none _ h = absurd (omega arith)

try_decode-ne-none :
    (buf : Bytes) (f : ℕ)
    → 10 ≤ length buf
    → read32 buf 0 ≡ some f
    → 10 ≤ f
    → f < 4294967296
    → try_decode buf ≢ none
unfolding try_decode
try_decode-ne-none buf f h e lo hi = ground (
  arith,
  head32-ne-none (drop 6 buf),
  length-drop 6 buf,
  get_elem?-ne-none 4 buf,
  get_elem?-ne-none 5 buf,
)

-- On a buffer with a header whose frame length is at least 10, TryDecode reads and copies only
-- inside the buffer: it returns. It waits, consuming nothing, exactly if the buffer is shorter than
-- the frame; else it skips one byte, or consumes the frame and hands out all but ten of its bytes.
pub try_decode_safe :
    (buf : Bytes) (f : ℕ)
    → 10 ≤ length buf
    → read32 buf 0 ≡ some f
    → 10 ≤ f
    → f < 4294967296
    → (d : Decoded) × (try_decode buf ≡ some d) × Explains buf f d
try_decode_safe buf f h e lo hi = elim (Option-cases (try_decode buf)) [
  | inl none_e ↦ absurd (try_decode-ne-none buf f h e lo hi none_e)
  | inr (d, r) ↦ (d, r, try_decode-Explains buf f e hi d h lo r)
]

-- A buffer of at least a header that announces a frame length below 10, with the right magic and
-- version, makes TryDecode copy past the end of the buffer.
pub try_decode_short_frame :
    (buf : Bytes) (f : ℕ)
    → 10 ≤ length buf
    → length buf < 4294967286
    → read32 buf 0 ≡ some f
    → f < 10
    → get_elem? buf 4 ≡ some magic
    → get_elem? buf 5 ≡ some version
    → try_decode buf ≡ none
unfolding try_decode
try_decode_short_frame buf f h small e lo m v = ground (arith, length-take 10 buf)
