-- ===== src/TextRpc/Lines.antt =====
-- A client's lines are answered the same way however the stream is cut into pieces.
use le_kv.Base.{zero, suc, List, [], ◌∷◌, ◌++◌, ◌==◌, ◌≡◌, refl, ap, map, Bool-cases, inl, inr}
use le_kv.Bytes.{Bytes}
use le_kv.Rpc.{bytes}
use le_kv.TextRpc.{Handler, until_nul, cut_lines, answer_line, answer_lines, serve_lines, parse}

-- No byte is zero.
abbrev pub NoNul : Bytes → Type 0
NoNul [] = Unit {0}
NoNul (zero ∷ bs) = ⊥
NoNul (suc b ∷ bs) = NoNul bs

abbrev pub NoNuls : List Bytes → Type 0
NoNuls [] = Unit {0}
NoNuls (b ∷ bs) = NoNul b × NoNuls bs

abbrev pub concat : List Bytes → Bytes
concat [] = []
concat (b ∷ bs) = b ++ concat bs

until_nul-whole : (b : Bytes) → NoNul b → until_nul b ≡ b
unfolding until_nul
until_nul-whole [] n = refl
until_nul-whole (zero ∷ b) n = absurd n
until_nul-whole (suc x ∷ b) n = ap (◌∷◌ (suc x)) (until_nul-whole b n)

-- The lines of two pieces are those of the first, and those of the rest of it with the second.
cut_lines-append :
    (start xs ys : Bytes)
    → cut_lines start (xs ++ ys) ≡ (
      (cut_lines start xs).0 ++ (cut_lines (cut_lines start xs).1 ys).0,
      (cut_lines (cut_lines start xs).1 ys).1,
    )
unfolding cut_lines
cut_lines-append start [] ys = refl
cut_lines-append start (x ∷ xs) ys = elim (Bool-cases (x == b'\n')) [
  | inl line ↦
      rw (line, cut_lines) (ap (λ r. ((start ++ (x ∷ [])) ∷ r.0, r.1)) (cut_lines-append [] xs ys))
  | inr inside ↦ rw (inside, cut_lines) (cut_lines-append (start ++ (x ∷ [])) xs ys)
]

module _ {S : Type 0} (handler : Handler S) where
  answer_lines-append :
      (s : S) (xs ys : List Bytes)
      → answer_lines handler s (xs ++ ys) ≡ (
        (answer_lines handler s xs).0 ++ (answer_lines handler (answer_lines handler s xs).1 ys).0,
        (answer_lines handler (answer_lines handler s xs).1 ys).1,
      )
  unfolding answer_lines
  answer_lines-append s [] ys = refl
  answer_lines-append s (x ∷ xs) ys =
      ap (λ r. ((answer_line handler s (parse x)).0 ∷ r.0, r.1))
        (answer_lines-append (answer_line handler s (parse x)).1 xs ys)

  nothing_served :
      (line_buf : Bytes) (s : S)
      → serve_lines handler line_buf s [] ≡ (
          let (lines, rest) = cut_lines line_buf [] in
          let (resps, s') = answer_lines handler s lines in (resps, s', rest))
  unfolding serve_lines cut_lines answer_lines
  nothing_served line_buf s = refl

  -- However a client's stream is cut into pieces, TextRpcServer::HandleClient answers the lines of
  -- the whole stream, in order, and keeps what is behind the last of them, if no byte is zero.
  pub serve_lines-concat :
      (line_buf : Bytes) (s : S) (pieces : List Bytes)
      → NoNuls pieces
      → serve_lines handler line_buf s (map bytes pieces) ≡ (
          let (lines, rest) = cut_lines line_buf (concat pieces) in
          let (resps, s') = answer_lines handler s lines in (resps, s', rest))
  unfolding serve_lines
  serve_lines-concat line_buf s [] n = nothing_served line_buf s
  serve_lines-concat line_buf s (b ∷ pieces) n =
      let (lines, rest) = cut_lines line_buf b in
      let s1 = (answer_lines handler s lines).1 in
      let later = serve_lines-concat rest s1 pieces n.1 in
      let first = answer_lines-append s lines (cut_lines rest (concat pieces)).0 in
      rw (until_nul-whole b n.0, later, cut_lines-append line_buf b (concat pieces), first) refl
