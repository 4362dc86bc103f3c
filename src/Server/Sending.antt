-- ===== src/Server/Sending.antt =====
-- Sending a response in pieces.
use le_kv.Base.{
  zero, suc, ◌+◌, ◌<◌, ◌≤◌, true, false, List, [], ◌∷◌, ◌++◌, ◌==◌, ◌≡◌, refl, ap, ◌∙◌, arith,
  length, length-drop, take, drop,
}
use le_kv.Bytes.{Bytes}
use le_kv.Rpc.{SendResult, taken, busy, refused}
use le_kv.Rpc.Framing.{take-drop}
use le_kv.Server.{send_response}

-- Every `send` takes at least a byte.
abbrev pub AllTaken : List SendResult → Type 0
AllTaken [] = Unit {0}
AllTaken (taken n ∷ sends) = (0 < n) × AllTaken sends
AllTaken (busy ∷ sends) = ⊥
AllTaken (refused ∷ sends) = ⊥

-- With a `send` for each byte, all of them are sent, and there are as many left as for the rest.
pub send_response_all :
    (sends : List SendResult) (b : Bytes)
    → AllTaken sends
    → length b ≤ length sends
    → let (good, sent, sends') = send_response sends b in
      (good ≡ true) × (sent ≡ b) × AllTaken sends' × (length sends ≤ length sends' + length b)
unfolding send_response
send_response_all sends [] a h = (refl, refl, a, omega arith)
send_response_all [] (x ∷ b) a h = absurd (omega arith)
send_response_all (busy ∷ sends) (x ∷ b) a h = absurd a
send_response_all (refused ∷ sends) (x ∷ b) a h = absurd a
send_response_all (taken zero ∷ sends) (x ∷ b) a h = absurd (omega arith)
send_response_all (taken (suc n) ∷ sends) (x ∷ b) a h =
    let (good, whole, taking, enough) =
      send_response_all sends (drop n b) a.1 (omega (arith, length-drop n b)) in
    let some_taken : (suc n == 0) ≡ false = ground arith in
    rw (some_taken, send_response)
      (
        good,
        ap (◌∷◌ x) (ap (◌++◌ (take n b)) whole ∙ take-drop n b),
        taking,
        omega (arith, length-drop n b),
      )
