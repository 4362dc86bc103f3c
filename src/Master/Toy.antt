-- ===== src/Master/Toy.antt =====
-- A small environment that meets the interface: one table can be written as JSON, and every request
-- is answered by the same statistics.
use le_kv.Base.{
  append-nil, ◌<◌, ◌≤◌, Bool, true, Option, none, some, [], ◌∷◌, ◌≡◌, refl, ap, sym, arith, length,
  inl,
}
use native.Mathlib.Decide.{ℕ_discrete}
use le_kv.Bytes.{Bytes}
use le_kv.Bytes.Endian.{read32}
use le_kv.Routing.{Tablet, Table}
use le_kv.Master.Interface.{Env}

Tablet-discrete : Discrete Tablet
Tablet-discrete = hlevel ℕ_discrete

Table-discrete : Discrete Table
Table-discrete = hlevel (ℕ_discrete, Tablet-discrete)

-- Whether the file can be opened, and its text.
abbrev pub ToyWorld : Type 0
ToyWorld = Bool × Option Bytes

abbrev pub toy_table : Table
toy_table = record {
  tablets =
      record { id = 1; start_key = []; end_key = b'm' ∷ []; node_id = 2; key_count = 8 }
      ∷ record { id = 2; start_key = b'm' ∷ []; end_key = []; node_id = 3; key_count = 0 }
      ∷ [];
  next_tablet_id = 3;
  epoch = 1;
}

-- JSON that can hold one table alone.
pub dump_only : Table → Table → Option Bytes
dump_only only t = elim (Table-discrete t only) [ yes e ↦ some (7 ∷ []) | no n ↦ none ]

pub parse-dump_only :
    (only t : Table) (text : Bytes) → dump_only only t ≡ some text → some only ≡ some t
unfolding dump_only
parse-dump_only only t text h = elim (Table-discrete t only) [
  | yes e ↦ ap some (sym e)
  | no n ↦ absurd (ground arith)
]

pub dump_only-same : (only : Table) → dump_only only only ≡ some (7 ∷ [])
unfolding dump_only
dump_only-same only = ground arith

-- The response [OK][4B length][4B count = 8][2B median length = 1]["f"] in a frame.
abbrev pub toy_frame : Bytes
toy_frame =
    0 ∷ 0 ∷ 0 ∷ 22 ∷ 0x4c ∷ 1 ∷ 0 ∷ 0 ∷ 0 ∷ 1 ∷ 0 ∷ 0 ∷ 0 ∷ 0 ∷ 7 ∷ 0 ∷ 0 ∷ 0 ∷ 8 ∷ 0 ∷ 1 ∷ b'f'
    ∷ []

pub toy_call-frame :
    (frame : Bytes)
    → some toy_frame ≡ some frame
    → (10 ≤ length frame) × (length frame < 4294967296) × (read32 frame 0 ≡ some (length frame))
unfolding read32
toy_call-frame frame h = let e : toy_frame ≡ frame = cc in rw (← e) (omega arith, omega arith, refl)

-- What the environment needs of the frame that answers every request.
abbrev pub IsFrame : Bytes → Type 0
IsFrame answer =
    (frame : Bytes)
    → some answer ≡ some frame
    → (10 ≤ length frame) × (length frame < 4294967296) × (read32 frame 0 ≡ some (length frame))

-- The environment in which a frame answers every request.
abbrev pub answering_env : (answer : Bytes) → IsFrame answer → Env
answering_env answer ok = record {
  World = ToyWorld;
  connected = λ w node. true;
  call = λ w node req. (some answer, w);
  call-frame = λ w node req frame h. ok frame h;
  file = λ w. w.1;
  can_open = λ w. w.0;
  replace_file = λ w text. (w.0, some text);
  file-replace_file = λ w text. inl (text, [], append-nil text, refl);
  dump = dump_only toy_table;
  parse = λ text. some toy_table;
  parse-dump = parse-dump_only toy_table;
  elapsed_ms = λ w w'. 0;
}

abbrev pub toy_env : Env
toy_env = answering_env toy_frame toy_call-frame

-- The response [OK][4B length][4B count = 1][2B "h"][4B value] of a scan, in a frame.
abbrev pub scan_frame : Bytes
scan_frame =
    0 ∷ 0 ∷ 0 ∷ 27 ∷ 0x4c ∷ 1 ∷ 0 ∷ 0 ∷ 0 ∷ 1 ∷ 0 ∷ 0 ∷ 0 ∷ 0 ∷ 12 ∷ 0 ∷ 0 ∷ 0 ∷ 1 ∷ 0 ∷ 1 ∷ b'h'
    ∷ 0 ∷ 0 ∷ 0 ∷ 1 ∷ 5 ∷ []

pub scan_call-IsFrame : IsFrame scan_frame
unfolding read32
scan_call-IsFrame frame h =
    let e : scan_frame ≡ frame = cc in rw (← e) (omega arith, omega arith, refl)

-- The environment in which every request is answered by a scan of one entry.
abbrev pub scan_env : Env
scan_env = answering_env scan_frame scan_call-IsFrame
