-- ===== src/Rpc/Framing.antt =====
-- RecvFrame puts frames together again, however the stream was cut into pieces.
use le_kv.Base.{
  ℕ, zero, suc, ◌+◌, ◌-◌, ◌<◌, ◌≤◌, true, Option, none, some, List, [], ◌∷◌, ◌++◌, ◌≡◌, refl, ap,
  sym, ◌∙◌, arith, length, length-append, append_assoc, append-nil, take, drop, length-take,
  take-append, drop-append,
}
use le_kv.Bytes.{Bytes}
use le_kv.Bytes.Endian.{read32}
use le_kv.Rpc.{Received, bytes, closed, again, failed, Client, recv_all, recv_rest, recv_frame}

-- The bytes that are still to come.
abbrev pub stream : List Received → Bytes
stream [] = []
stream (bytes b ∷ rs) = b ++ stream rs
stream (closed ∷ rs) = []
stream (again ∷ rs) = stream rs
stream (failed ∷ rs) = []

-- The milliseconds that RecvAll counts as waiting for them.
abbrev pub waiting : List Received → ℕ
waiting [] = 0
waiting (bytes b ∷ rs) = waiting rs
waiting (closed ∷ rs) = 0
waiting (again ∷ rs) = 10 + waiting rs
waiting (failed ∷ rs) = 0

-- All the bytes of a client: in its buffer, and to come.
abbrev pub bytes_of : Client → Bytes
bytes_of c = c.buf ++ stream c.socket

-- After a successful receive: no byte is lost, the bytes needed are there, and the wait is no longer.
abbrev pub Filled : ℕ → Bytes → List Received → Client → Type 0
Filled need buf rs c =
    (bytes_of c ≡ buf ++ stream rs) × (need ≤ length c.buf) × (waiting c.socket ≤ waiting rs)

-- If the bytes come in time, RecvAll succeeds.
recv_all-Filled :
    (need t : ℕ) (buf : Bytes) (rs : List Received)
    → need ≤ length (buf ++ stream rs)
    → waiting rs < t
    → ((recv_all need t buf rs).0 ≡ true) × Filled need buf rs (recv_all need t buf rs).1
unfolding recv_all
recv_all-Filled need t buf [] h w = ground (arith, append-nil buf)
recv_all-Filled need t buf (bytes b ∷ rs) h w = ground (
  arith,
  append_assoc buf b (stream rs),
  recv_all-Filled need t (buf ++ b) rs (rw (append_assoc buf b (stream rs)) h) w,
)
recv_all-Filled need t buf (closed ∷ rs) h w = ground (arith, append-nil buf)
recv_all-Filled need t buf (again ∷ rs) h w =
    ground (arith, recv_all-Filled need (t - 10) buf rs h (omega arith))
recv_all-Filled need t buf (failed ∷ rs) h w = ground (arith, append-nil buf)

-- If RecvAll succeeds, the bytes needed are there and none is lost.
pub recv_all_sound :
    (need t : ℕ) (buf : Bytes) (rs : List Received)
    → (recv_all need t buf rs).0 ≡ true
    → Filled need buf rs (recv_all need t buf rs).1
unfolding recv_all
recv_all_sound need t buf [] h = ground arith
recv_all_sound need t buf (bytes b ∷ rs) h =
    ground (arith, append_assoc buf b (stream rs), recv_all_sound need t (buf ++ b) rs)
recv_all_sound need t buf (closed ∷ rs) h = ground arith
recv_all_sound need t buf (again ∷ rs) h = ground (arith, recv_all_sound need (t - 10) buf rs)
recv_all_sound need t buf (failed ∷ rs) h = ground arith

-- The first bytes do not depend on what follows them.
take-append_le : (n : ℕ) (a b : Bytes) → n ≤ length a → take n (a ++ b) ≡ take n a
take-append_le zero a b h = refl
take-append_le (suc n) [] b h = absurd (omega arith)
take-append_le (suc n) (x ∷ a) b h = ap (◌∷◌ x) (take-append_le n a b (omega arith))

drop-append_le : (n : ℕ) (a b : Bytes) → n ≤ length a → drop n (a ++ b) ≡ drop n a ++ b
drop-append_le zero a b h = refl
drop-append_le (suc n) [] b h = absurd (omega arith)
drop-append_le (suc n) (x ∷ a) b h = drop-append_le n a b (omega arith)

pub length-take_le : (n : ℕ) (a : Bytes) → n ≤ length a → length (take n a) ≡ n
length-take_le n a h = ground (arith, length-take n a)

pub take-drop : (n : ℕ) (a : Bytes) → take n a ++ drop n a ≡ a
take-drop zero a = refl
take-drop (suc n) [] = refl
take-drop (suc n) (x ∷ a) = ap (◌∷◌ x) (take-drop n a)

pub read32-append : (a b : Bytes) → 4 ≤ length a → read32 (a ++ b) 0 ≡ read32 a 0
unfolding read32
read32-append [] b h = absurd (omega arith)
read32-append (x ∷ []) b h = absurd (omega arith)
read32-append (x ∷ y ∷ []) b h = absurd (omega arith)
read32-append (x ∷ y ∷ z ∷ []) b h = absurd (omega arith)
read32-append (x ∷ y ∷ z ∷ w ∷ a) b h = refl

-- A frame is what its header says: its length, which is at least a header's.
abbrev pub IsFramed : Bytes → Type 0
IsFramed frame = (10 ≤ length frame) × (read32 frame 0 ≡ some (length frame))

-- RecvFrame, from its first four bytes on.
recv_rest-frame :
    (t : ℕ) (c : Client) (frame rest : Bytes)
    → bytes_of c ≡ frame ++ rest
    → IsFramed frame
    → 4 ≤ length c.buf
    → waiting c.socket < t
    → (c' : Client) × (recv_rest t c ≡ some (some frame, c'))
      × (bytes_of c' ≡ rest)
      × (waiting c'.socket ≤ waiting c.socket)
unfolding recv_rest
recv_rest-frame t c frame rest same (long, header) four w =
    let announced : read32 c.buf 0 ≡ some (length frame) =
      sym (read32-append c.buf (stream c.socket) four)
      ∙ (ap (λ x. read32 x 0) same ∙ (read32-append frame rest (omega arith) ∙ header)) in
    let (good, (kept, enough, wait)) =
      recv_all-Filled (length frame) t c.buf c.socket
        (rw (same, length-append frame rest) (omega arith)) w in
    let c' = (recv_all (length frame) t c.buf c.socket).1 in
    let whole : c'.buf ++ stream c'.socket ≡ frame ++ rest = kept ∙ same in
    let first : take (length frame) c'.buf ≡ frame =
      sym (take-append_le (length frame) c'.buf (stream c'.socket) enough)
      ∙ (ap (take (length frame)) whole ∙ take-append frame rest) in
    let remaining : drop (length frame) c'.buf ++ stream c'.socket ≡ rest =
      sym (drop-append_le (length frame) c'.buf (stream c'.socket) enough)
      ∙ (ap (drop (length frame)) whole ∙ drop-append frame rest) in
    (
      record c' { buf = drop (length frame) c'.buf },
      ground (arith, announced, good, first),
      remaining,
      wait,
    )

-- RecvFrame on a stream that begins with a frame, in whatever pieces, returns exactly the frame, and
-- the rest of the stream is left, if the waiting that RecvAll counts stays below the timeout.
pub recv_frame-frame :
    (t : ℕ) (c : Client) (frame rest : Bytes)
    → bytes_of c ≡ frame ++ rest
    → IsFramed frame
    → waiting c.socket < t
    → (c' : Client) × (recv_frame t c ≡ some (some frame, c'))
      × (bytes_of c' ≡ rest)
      × (waiting c'.socket ≤ waiting c.socket)
unfolding recv_frame
recv_frame-frame t c frame rest same f w =
    let (good, (kept, four, wait)) =
      recv_all-Filled 4 t c.buf c.socket (rw (same, length-append frame rest) (omega arith)) w in
    let c1 = (recv_all 4 t c.buf c.socket).1 in
    let (c', e, left, wait') = recv_rest-frame t c1 frame rest (kept ∙ same) f four (omega arith) in
    (c', ground (arith, good, e), left, omega arith)

-- The next frames, one RecvFrame after the other.
abbrev pub recv_frames : ℕ → ℕ → Client → Option (List Bytes × Client)
recv_frames t zero c = some ([], c)
recv_frames t (suc n) c = elim (recv_frame t c) [
  | none ↦ none
  | some (none, c') ↦ none
  | some (some frame, c') ↦ elim (recv_frames t n c') [
    | none ↦ none
    | some (frames, c'') ↦ some (frame ∷ frames, c'')
  ]
]

abbrev pub AllFramed : List Bytes → Type 0
AllFramed [] = Unit {0}
AllFramed (f ∷ fs) = IsFramed f × AllFramed fs

abbrev pub concat : List Bytes → Bytes
concat [] = []
concat (f ∷ fs) = f ++ concat fs

-- Frames that are sent one after the other are received one by one, in order, however the stream
-- was cut into pieces, if the waiting that RecvAll counts stays below the timeout; nothing behind
-- them is lost.
pub recv_frames-concat :
    (t : ℕ) (fs : List Bytes) (rest : Bytes) (c : Client)
    → bytes_of c ≡ concat fs ++ rest
    → AllFramed fs
    → waiting c.socket < t
    → (c' : Client) × (recv_frames t (length fs) c ≡ some (fs, c')) × (bytes_of c' ≡ rest)
recv_frames-concat t [] rest c same f w = (c, refl, same)
recv_frames-concat t (frame ∷ fs) rest c same (f, g) w =
    let (c1, e, left, wait) =
      recv_frame-frame t c frame (concat fs ++ rest) (same ∙ append_assoc frame (concat fs) rest) f
        w in
    let (c', es, left') = recv_frames-concat t fs rest c1 left g (omega arith) in
    (c', ground (arith, e, es), left')
