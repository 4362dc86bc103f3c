-- ===== src/Rpc/Tests.antt =====
-- Frames received in pieces, and each theorem about receiving at an input.
use le_kv.Base.{some, [], ◌∷◌, ◌≡◌, refl, arith}
use le_kv.Bytes.{Bytes}
use le_kv.Bytes.Endian.{read32}
use le_kv.Rpc.{bytes, closed, again, Client, recv_all, recv_rest, recv_frame}
use le_kv.Rpc.Framing.{bytes_of, recv_frames, recv_frames-concat, AllFramed}
use le_kv.Rpc.Safety.{Framed, recv_frame-Framed}

-- Two frames, [length][magic][version][request id] and a payload, that arrive in three pieces.
abbrev first_frame : Bytes
first_frame = 0 ∷ 0 ∷ 0 ∷ 11 ∷ 0x4c ∷ 1 ∷ 0 ∷ 0 ∷ 0 ∷ 1 ∷ 7 ∷ []

abbrev second_frame : Bytes
second_frame = 0 ∷ 0 ∷ 0 ∷ 10 ∷ 0x4c ∷ 1 ∷ 0 ∷ 0 ∷ 0 ∷ 2 ∷ []

abbrev pieces : Client
pieces = record {
  buf = 0 ∷ 0 ∷ [];
  socket =
      bytes (0 ∷ 11 ∷ 0x4c ∷ [])
      ∷ again
      ∷ bytes (1 ∷ 0 ∷ 0 ∷ 0 ∷ 1 ∷ 7 ∷ 0 ∷ 0 ∷ [])
      ∷ bytes (0 ∷ 10 ∷ 0x4c ∷ 1 ∷ 0 ∷ 0 ∷ 0 ∷ 2 ∷ 9 ∷ [])
      ∷ closed
      ∷ [];
}

first_run :
    recv_frame 5000 pieces
    ≡ some (
      some first_frame,
      record {
        buf = 0 ∷ 0 ∷ [];
        socket = bytes (0 ∷ 10 ∷ 0x4c ∷ 1 ∷ 0 ∷ 0 ∷ 0 ∷ 2 ∷ 9 ∷ []) ∷ closed ∷ [];
      },
    )
unfolding recv_frame recv_rest recv_all read32
first_run = refl

frames-AllFramed : AllFramed (first_frame ∷ second_frame ∷ [])
unfolding read32
frames-AllFramed = ((omega arith, refl), ((omega arith, refl), tt))

recv_frames-concat_example :
    (c : Client) × (recv_frames 5000 2 pieces ≡ some (first_frame ∷ second_frame ∷ [], c))
    × (bytes_of c ≡ 9 ∷ [])
recv_frames-concat_example =
    recv_frames-concat 5000 (first_frame ∷ second_frame ∷ []) (9 ∷ []) pieces refl frames-AllFramed
      (omega arith)

recv_frame-Framed_example : Framed pieces (recv_frame 5000 pieces)
recv_frame-Framed_example = recv_frame-Framed 5000 pieces
