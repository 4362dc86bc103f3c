-- ===== src/TextRpc.antt =====
-- rpc/text_protocol.cpp, and TextRpcServer::HandleClient of rpc/rpc_server.cpp: commands in lines.
pub mod Lines
mod Tests
use le_kv.Base.{
  ℕ, zero, suc, ◌+◌, ◌-◌, Bool, true, false, ◌&&◌, Option, none, some, List, [], ◌∷◌, ◌++◌, ◌==◌,
  leb, if◌then◌else◌, map, get_elem?,
}
use le_kv.Bytes.{Bytes, is_empty}
use le_kv.Rpc.{Received, bytes, closed, again, failed}
use le_kv.Dispatch.Decimal.{to_string}
use le_kv.Cli.Text.{read_word, from_first_not}

-- Command
pub record Command : Type 0 where
  pub name : Bytes
  pub args : List Bytes

-- Command::arg
unfoldable pub arg : Command → ℕ → Bytes
arg cmd i = elim (get_elem? cmd.args i) [ none ↦ [] | some a ↦ a ]

-- pop_back if the last byte is `b`.
unfoldable pub strip_end : ℕ → Bytes → Bytes
strip_end b [] = []
strip_end b (x ∷ []) = if x == b then [] else x ∷ []
strip_end b (x ∷ y ∷ xs) = x ∷ strip_end b (y ∷ xs)

-- ::toupper of a byte.
abbrev pub to_upper : ℕ → ℕ
to_upper b = if leb b'a' b && leb b b'z' then b - 32 else b

-- What `arg` holds after getline: the rest of the line, or, where the stream has failed or is at its
-- end, the word that it held before.
abbrev pub line_or : Bytes → Bytes → Bytes
line_or held [] = held
line_or held (b ∷ rest) = b ∷ rest

-- The loop of Parse that reads up to so many arguments: these, and what `arg` holds after getline.
unfoldable pub read_args : ℕ → Bytes → Bytes → List Bytes × Bytes
read_args zero held text = ([], line_or held text)
read_args (suc left) held text =
    let (word, rest) = read_word text in
    let (args, last) = read_args left word rest in
    if is_empty word then ([], held) else (word ∷ args, last)

-- The end of Parse: what `arg` holds is an argument too, without the blanks before it.
abbrev pub last_args : Bytes → List Bytes
last_args [] = []
last_args (b ∷ held) = elim (from_first_not b' ' (b ∷ held)) [ none ↦ [] ∷ [] | some a ↦ a ∷ [] ]

-- Parse, on a line without its end.
unfoldable pub parse_trimmed : Bytes → Option Command
unfolding read_args
parse_trimmed text =
    let (word, rest) = read_word text in
    let (args, held) = read_args 5 [] rest in
    if is_empty word
    then none
    else some (record { name = map to_upper word; args = args ++ last_args held })

-- TextProtocol::Parse
unfoldable pub parse : Bytes → Option Command
unfolding strip_end parse_trimmed
parse line = parse_trimmed (strip_end b'\r' (strip_end b'\n' line))

-- TextProtocol::Ok
unfoldable pub ok : Bytes → Bytes
ok msg =
    if is_empty msg
    then b'+' ∷ b'O' ∷ b'K' ∷ b'\r' ∷ b'\n' ∷ []
    else b'+' ∷ b'O' ∷ b'K' ∷ b' ' ∷ (msg ++ (b'\r' ∷ b'\n' ∷ []))

-- TextProtocol::Err
unfoldable pub err : Bytes → Bytes → Bytes
err code msg = b'-' ∷ b'E' ∷ b'R' ∷ b'R' ∷ b' ' ∷ (code ++ (b' ' ∷ (msg ++ (b'\r' ∷ b'\n' ∷ []))))

abbrev append_resp : Bytes
append_resp = b'A' ∷ b'P' ∷ b'P' ∷ b'E' ∷ b'N' ∷ b'D' ∷ b'_' ∷ b'R' ∷ b'E' ∷ b'S' ∷ b'P' ∷ b' ' ∷ []

abbrev true_text : Bytes
true_text = b't' ∷ b'r' ∷ b'u' ∷ b'e' ∷ []

abbrev false_text : Bytes
false_text = b'f' ∷ b'a' ∷ b'l' ∷ b's' ∷ b'e' ∷ []

-- The loop of SplitArgs: so many parts, and the rest of the line. A part that cannot be read is the
-- one before it.
unfoldable pub split_loop : ℕ → Bytes → Bytes → List Bytes
split_loop zero part text = line_or part text ∷ []
split_loop (suc left) part text =
    let (word, rest) = read_word text in
    let next = if is_empty word then part else word in next ∷ split_loop left next rest

-- TextProtocol::SplitArgs
unfoldable pub split_args : Bytes → List Bytes
split_args line = split_loop 5 [] line

-- TextProtocol::EncodeAppendResponse
unfoldable pub encode_append_response : ℕ → Bool → Bytes
encode_append_response term success =
    append_resp
    ++ (to_string term
        ++ (b' ' ∷ ((if success then true_text else false_text) ++ (b'\r' ∷ b'\n' ∷ []))))

-- The bytes that appending a C string appends: those before the first zero.
unfoldable pub until_nul : Bytes → Bytes
until_nul [] = []
until_nul (zero ∷ bs) = []
until_nul (suc b ∷ bs) = suc b ∷ until_nul bs

-- The lines that a buffer holds, each with its end, and what is left, after the start of a line.
unfoldable pub cut_lines : Bytes → Bytes → List Bytes × Bytes
cut_lines start [] = ([], start)
cut_lines start (b ∷ bs) = elim (b == b'\n') [
  | true ↦ let (lines, rest) = cut_lines [] bs in ((start ++ (b ∷ [])) ∷ lines, rest)
  | false ↦ cut_lines (start ++ (b ∷ [])) bs
]

abbrev pub bad_cmd : Bytes
bad_cmd = b'B' ∷ b'A' ∷ b'D' ∷ b'_' ∷ b'C' ∷ b'M' ∷ b'D' ∷ []

abbrev pub invalid_format : Bytes
invalid_format =
    b'I' ∷ b'n' ∷ b'v' ∷ b'a' ∷ b'l' ∷ b'i' ∷ b'd' ∷ b' ' ∷ b'f' ∷ b'o' ∷ b'r' ∷ b'm' ∷ b'a' ∷ b't'
    ∷ []

-- `handler_` changes a state.
abbrev pub Handler : Type 0 → Type 0
Handler S = S → Command → Bytes × S

module _ {S : Type 0} (handler : Handler S) where
  -- The response to a line.
  unfoldable pub answer_line : S → Option Command → Bytes × S
  answer_line s none = (err bad_cmd invalid_format, s)
  answer_line s (some cmd) = handler s cmd

  -- The responses to lines, each sent by one call of `send`, whose result is not looked at.
  unfoldable pub answer_lines : S → List Bytes → List Bytes × S
  answer_lines s [] = ([], s)
  answer_lines s (line ∷ lines) =
      let (resp, s1) = answer_line s (parse line) in
      let (resps, s') = answer_lines s1 lines in (resp ∷ resps, s')

  -- HandleClient, on what `recv` returns: the responses that it sends, and what is left in its
  -- buffer. A closed connection goes round the loop; an error ends it.
  unfoldable pub serve_lines : Bytes → S → List Received → List Bytes × S × Bytes
  unfolding answer_lines
  serve_lines line_buf s [] = ([], s, line_buf)
  serve_lines line_buf s (closed ∷ rs) = serve_lines line_buf s rs
  serve_lines line_buf s (again ∷ rs) = ([], s, line_buf)
  serve_lines line_buf s (failed ∷ rs) = ([], s, line_buf)
  serve_lines line_buf s (bytes b ∷ rs) =
      let (lines, rest) = cut_lines line_buf (until_nul b) in
      let (resps, s1) = answer_lines s lines in
      let (more, s', left) = serve_lines rest s1 rs in (resps ++ more, s', left)
