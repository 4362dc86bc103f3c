-- ===== src/Rpc/Sending.antt =====
-- What RpcClient::Send puts on the stream, whatever `send` returns.
use le_kv.Base.{
  zero, suc, false, List, [], ◌∷◌, ◌++◌, ◌==◌, ◌≡◌, refl, ap, ◌∙◌, arith, append_assoc, take, drop,
}
use le_kv.Bytes.{Bytes, is_empty}
use le_kv.Rpc.{SendResult, taken, busy, refused, send_loop}
use le_kv.Rpc.Framing.{take-drop}

-- The bytes that Send sent are the first of its data, and all of them exactly if it returns true.
pub send_loop_prefix :
    (sends : List SendResult) (bytes : Bytes)
    → (left : Bytes) × ((send_loop sends bytes).1 ++ left ≡ bytes)
      × ((send_loop sends bytes).0 ≡ is_empty left)
unfolding send_loop
send_loop_prefix sends [] = ([], refl, refl)
send_loop_prefix [] (b ∷ bytes) = (b ∷ bytes, refl, refl)
send_loop_prefix (busy ∷ sends) (b ∷ bytes) = send_loop_prefix sends (b ∷ bytes)
send_loop_prefix (refused ∷ sends) (b ∷ bytes) = (b ∷ bytes, refl, refl)
send_loop_prefix (taken zero ∷ sends) (b ∷ bytes) = (b ∷ bytes, refl, refl)
send_loop_prefix (taken (suc n) ∷ sends) (b ∷ bytes) =
    let (left, whole, good) = send_loop_prefix sends (drop n bytes) in
    let some_taken : (suc n == 0) ≡ false = ground arith in
    rw (some_taken, send_loop)
      (
        left,
        ap (◌∷◌ b) (
            append_assoc (take n bytes) _ left
            ∙ (ap (◌++◌ (take n bytes)) whole ∙ take-drop n bytes)),
        good,
      )
