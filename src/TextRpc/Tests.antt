-- ===== src/TextRpc/Tests.antt =====
-- Lines in pieces, and what Parse makes of them.
use le_kv.Base.{ℕ, ◌+◌, List, some, [], ◌∷◌, ◌≡◌, refl, map}
use le_kv.Bytes.{Bytes}
use le_kv.Rpc.{bytes}
use le_kv.Cli.Text.{skip_spaces, span_word, from_first_not}
use le_kv.TextRpc.{
  Handler, strip_end, read_args, parse_trimmed, parse, ok, cut_lines, answer_lines, serve_lines,
}
use le_kv.TextRpc.Lines.{concat, serve_lines-concat}

-- "put k v" with its end: the last argument is there twice, since `arg` keeps it.
abbrev put_line : Bytes
put_line = b'p' ∷ b'u' ∷ b't' ∷ b' ' ∷ b'k' ∷ b' ' ∷ b'v' ∷ b'\r' ∷ b'\n' ∷ []

put_run :
    parse put_line
    ≡ some (record {
      name = b'P' ∷ b'U' ∷ b'T' ∷ [];
      args = (b'k' ∷ []) ∷ (b'v' ∷ []) ∷ (b'v' ∷ []) ∷ [];
    })
unfolding parse parse_trimmed strip_end read_args skip_spaces span_word from_first_not
put_run = refl

-- More than five arguments: the rest of the line is the sixth.
six_run :
    parse (
      b'x' ∷ b' ' ∷ b'a' ∷ b' ' ∷ b'b' ∷ b' ' ∷ b'c' ∷ b' ' ∷ b'd' ∷ b' ' ∷ b'e' ∷ b' ' ∷ b'f'
      ∷ b' ' ∷ b'g' ∷ b'\n' ∷ [])
    ≡ some (record {
      name = b'X' ∷ [];
      args =
          (b'a' ∷ [])
          ∷ (b'b' ∷ [])
          ∷ (b'c' ∷ [])
          ∷ (b'd' ∷ [])
          ∷ (b'e' ∷ [])
          ∷ (b'f' ∷ b' ' ∷ b'g' ∷ [])
          ∷ [];
    })
unfolding parse parse_trimmed strip_end read_args skip_spaces span_word from_first_not
six_run = refl

-- A handler that counts its calls, and answers OK.
counter : Handler ℕ
counter n cmd = (ok [], n + 1)

-- The line in two pieces, and the start of another.
abbrev two_pieces : List Bytes
two_pieces = (b'p' ∷ b'u' ∷ []) ∷ (b't' ∷ b' ' ∷ b'k' ∷ b'\n' ∷ b'g' ∷ []) ∷ []

serve_lines-concat_example : serve_lines counter [] 0 (map bytes two_pieces) ≡ (
    let (lines, rest) = cut_lines [] (concat two_pieces) in
    let (resps, s') = answer_lines counter 0 lines in (resps, s', rest))
serve_lines-concat_example = serve_lines-concat counter [] 0 two_pieces (tt, (tt, tt))
