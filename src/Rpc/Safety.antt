-- ===== src/Rpc/Safety.antt =====
-- What a frame that RecvFrame returns is, whatever the socket does.
use le_kv.Base.{
  ℕ, ◌+◌, ◌*◌, ◌≤◌, Option, none, some, [], ◌∷◌, ◌++◌, ◌≡◌, refl, ap, sym, ◌∙◌, arith, Bool-cases,
  inl, inr, ltb, length, append_assoc, take, drop,
}
use le_kv.Bytes.{Bytes}
use le_kv.Bytes.Endian.{read32}
use le_kv.Rpc.{Client, recv_all, recv_rest, recv_frame}
use le_kv.Rpc.Framing.{
  stream, bytes_of, Filled, recv_all_sound, take-drop, length-take_le, read32-append, IsFramed,
}

read32-some : (a : Bytes) → 4 ≤ length a → (n : ℕ) × (read32 a 0 ≡ some n)
unfolding read32
read32-some [] h = absurd (omega arith)
read32-some (x ∷ []) h = absurd (omega arith)
read32-some (x ∷ y ∷ []) h = absurd (omega arith)
read32-some (x ∷ y ∷ z ∷ []) h = absurd (omega arith)
read32-some (x ∷ y ∷ z ∷ w ∷ a) h = (x * 16777216 + y * 65536 + z * 256 + w, refl)

-- The result of RecvFrame: false, or a frame of the length that its header says; the frame and what
-- is left are what there was.
abbrev pub Framed : Client → Option (Option Bytes × Client) → Type 0
Framed c none = ⊥
Framed c (some (none, c')) = Unit
Framed c (some (some frame, c')) = IsFramed frame × (frame ++ bytes_of c' ≡ bytes_of c)

-- The frame that is split off a filled buffer.
split-Framed :
    (n : ℕ) (c c' : Client)
    → 10 ≤ n
    → read32 c.buf 0 ≡ some n
    → 4 ≤ length c.buf
    → Filled n c.buf c.socket c'
    → Framed c (some (some (take n c'.buf), record c' { buf = drop n c'.buf }))
split-Framed n c c' long announced four (kept, enough, wait) =
    let sized = length-take_le n c'.buf enough in
    let joined = take-drop n c'.buf in
    let header : read32 (take n c'.buf) 0 ≡ some n =
      sym (read32-append (take n c'.buf) (drop n c'.buf) (rw sized (omega arith)))
      ∙ (ap (λ x. read32 x 0) joined
          ∙ (sym (read32-append c'.buf (stream c'.socket) (omega arith))
              ∙ (ap (λ x. read32 x 0) kept
                  ∙ (read32-append c.buf (stream c.socket) four ∙ announced)))) in
    (
      (rw sized long, header ∙ ap some (sym sized)),
      sym (append_assoc (take n c'.buf) (drop n c'.buf) (stream c'.socket))
          ∙ (ap (λ x. x ++ stream c'.socket) joined ∙ kept),
    )

recv_rest-Framed : (t : ℕ) (c : Client) → 4 ≤ length c.buf → Framed c (recv_rest t c)
unfolding recv_rest
recv_rest-Framed t c four =
    let (n, announced) = read32-some c.buf four in
    elim (Bool-cases (ltb n 10)) [
      | inl short ↦ rw (announced, short) tt
      | inr long ↦ elim (Bool-cases (recv_all n t c.buf c.socket).0) [
        | inl good ↦
            rw (announced, long, good)
              (split-Framed n c (recv_all n t c.buf c.socket).1 (ground arith) announced four
                (recv_all_sound n t c.buf c.socket good))
        | inr bad ↦ rw (announced, long, bad) tt
      ]
    ]

-- The result of a client that holds the same bytes.
Framed-same :
    (c d : Client) (r : Option (Option Bytes × Client))
    → bytes_of c ≡ bytes_of d
    → Framed c r
    → Framed d r
Framed-same c d none e f = f
Framed-same c d (some (none, c')) e f = f
Framed-same c d (some (some frame, c')) e f = (f.0, f.1 ∙ e)

-- RecvFrame reads nothing outside its buffer, whatever the socket does; a frame that it returns has
-- the length that its header says, at least ten, and together with what is left it is the bytes that
-- there were.
pub recv_frame-Framed : (t : ℕ) (c : Client) → Framed c (recv_frame t c)
unfolding recv_frame
recv_frame-Framed t c = elim (Bool-cases (recv_all 4 t c.buf c.socket).0) [
  | inl good ↦
      let (kept, four, wait) = recv_all_sound 4 t c.buf c.socket good in
      rw good (
        Framed-same (recv_all 4 t c.buf c.socket).1 c _ kept
          (recv_rest-Framed t (recv_all 4 t c.buf c.socket).1 four))
  | inr bad ↦ rw bad tt
]
