-- ===== src/Cli/Shards.antt =====
-- The text of a SHARDS reply, which HandleMasterShards writes and FetchRouteTable reads.
use le_kv.Base.{
  ℕ, ◌<◌, Bool, true, false, some, List, [], ◌∷◌, ◌++◌, ◌==◌, ◌≡◌, refl, ap, sym, ◌∙◌, arith,
  length, map, append_assoc, append-nil,
}
use le_kv.Bytes.{Bytes, lt_bytes}
use le_kv.Bytes.Order.{lt_bytes_asymm}
use le_kv.Dispatch.{get_node_addr, shard_text, shards_body}
use le_kv.Dispatch.Decimal.{to_string}
use le_kv.Routing.{PeerInfo, Tablet}
use le_kv.Routing.Partition.{CoversFrom, CoversFrom-head, IsPartition}
use le_kv.Cli.{
  tablet_of_parts, tablets_of_segments, insert_by_start, sort_by_start, tablets_of_body,
}
use le_kv.Cli.Text.{is_space, words_from, split_colons}
use le_kv.Cli.Numbers.{
  Avoids, Avoids-append, AllDigits-Avoids, to_string-AllDigits, read_unsigned-to_string,
}
use le_kv.Cli.Route.{cached}

abbrev is_colon : ℕ → Bool
is_colon b = b == b':'

-- Neither a blank nor a colon.
abbrev pub IsPlain : Bytes → Type 0
IsPlain bs = Avoids is_space bs × Avoids is_colon bs

-- A tablet whose text the client can read back: plain boundaries, an id of 64 bits, and a node whose
-- address is known, with a plain ip.
abbrev pub IsReadable : List PeerInfo → Tablet → Type 0
IsReadable peers t =
    IsPlain t.start_key
    × IsPlain t.end_key
    × (t.id < 18446744073709551616)
    × ((p : PeerInfo) × (get_node_addr peers t.node_id ≡ p.ip ++ (b':' ∷ to_string p.port))
        × IsPlain p.ip)

abbrev pub AllReadable : List PeerInfo → List Tablet → Type 0
AllReadable peers [] = Unit {0}
AllReadable peers (t ∷ ts) = IsReadable peers t × AllReadable peers ts

to_string-IsPlain : (n : ℕ) → IsPlain (to_string n)
to_string-IsPlain n = (
  AllDigits-Avoids is_space (to_string n) (λ d lo hi. ground arith) (to_string-AllDigits n),
  AllDigits-Avoids is_colon (to_string n) (λ d lo hi. ground arith) (to_string-AllDigits n),
)

-- Parts.
split_colons_last : (xs : Bytes) → Avoids is_colon xs → split_colons xs ≡ xs ∷ []
unfolding split_colons
split_colons_last [] a = refl
split_colons_last (x ∷ xs) a = rw (a.0, split_colons_last xs a.1) refl

split_colons_first :
    (xs ys : Bytes) → Avoids is_colon xs → split_colons (xs ++ (b':' ∷ ys)) ≡ xs ∷ split_colons ys
unfolding split_colons
split_colons_first [] ys a = ground arith
split_colons_first (x ∷ xs) ys a = rw (a.0, split_colons_first xs ys a.1) refl

-- Words.
words_from-append :
    (word xs rest : Bytes)
    → Avoids is_space xs
    → words_from word (xs ++ rest) ≡ words_from (word ++ xs) rest
unfolding words_from
words_from-append word [] rest a = ap (λ w. words_from w rest) (sym (append-nil word))
words_from-append [] (x ∷ xs) rest a = rw (a.0, words_from) (words_from-append (x ∷ []) xs rest a.1)
words_from-append (w ∷ word) (x ∷ xs) rest a =
    rw (a.0, words_from)
      (words_from-append (w ∷ (word ++ (x ∷ []))) xs rest a.1
        ∙ ap (λ v. words_from (w ∷ v) rest) (append_assoc word (x ∷ []) xs))

append_cons : (xs : Bytes) (b : ℕ) (ys : Bytes) → (v : ℕ) × (vs : Bytes) × (xs ++ (b ∷ ys) ≡ v ∷ vs)
append_cons [] b ys = (b, ys, refl)
append_cons (x ∷ xs) b ys = (x, xs ++ (b ∷ ys), refl)

module _ (peers : List PeerInfo) where
  insert_first :
      (t u : Tablet) (rest : List Tablet)
      → lt_bytes u.start_key t.start_key ≡ false
      → insert_by_start (cached peers t) (map (cached peers) (u ∷ rest))
        ≡ map (cached peers) (t ∷ u ∷ rest)
  unfolding insert_by_start
  insert_first t u rest h = rw h refl

  shard_text-spaces : (t : Tablet) → IsReadable peers t → Avoids is_space (shard_text peers t)
  shard_text-spaces t (start, end, small, (p, e, ip)) =
      let colon : is_space b':' ≡ false = refl in
      let port = to_string-IsPlain p.port in
      let number = to_string-IsPlain t.id in
      rw e (
        Avoids-append is_space (to_string t.id) _ number.0 (
          colon,
          Avoids-append is_space t.start_key _ start.0 (
            colon,
            Avoids-append is_space t.end_key _ end.0
                (colon, Avoids-append is_space p.ip _ ip.0 (colon, port.0)),
          ),
        ))

  tablet_of_shard :
      (t : Tablet)
      → IsReadable peers t
      → tablet_of_parts (split_colons (shard_text peers t)) ≡ some (some (cached peers t))
  unfolding tablet_of_parts
  tablet_of_shard t (start, end, small, (p, e, ip)) =
      let number = to_string-IsPlain t.id in
      let port = to_string-IsPlain p.port in
      let parts : split_colons (shard_text peers t)
          ≡ to_string t.id ∷ t.start_key ∷ t.end_key ∷ p.ip ∷ to_string p.port ∷ [] =
        rw e (
          split_colons_first (to_string t.id) _ number.1
          ∙ ap (◌∷◌ (to_string t.id)) (
              split_colons_first t.start_key _ start.1
              ∙ ap (◌∷◌ t.start_key) (
                  split_colons_first t.end_key _ end.1
                  ∙ ap (◌∷◌ t.end_key) (
                      split_colons_first p.ip _ ip.1
                      ∙ ap (◌∷◌ p.ip) (split_colons_last (to_string p.port) port.1))))) in
      let id_read =
        rw (append-nil (to_string t.id)) at (read_unsigned-to_string t.id [] small tt) in
      rw (parts, id_read, e) refl

  tablets_of_shards :
      (ts : List Tablet)
      → AllReadable peers ts
      → tablets_of_segments (map (shard_text peers) ts) ≡ some (map (cached peers) ts)
  unfolding tablets_of_segments
  tablets_of_shards [] a = refl
  tablets_of_shards (t ∷ ts) a = rw (tablet_of_shard t a.0, tablets_of_shards ts a.1) refl

  shard_cons : (t : Tablet) → (v : ℕ) × (vs : Bytes) × (shard_text peers t ≡ v ∷ vs)
  shard_cons t = append_cons (to_string t.id) b':' _

  -- A word that has begun, then the texts of tablets.
  words-shards_body :
      (w : ℕ) (ws : Bytes) (ts : List Tablet)
      → AllReadable peers ts
      → words_from (w ∷ ws) (shards_body peers ts false) ≡ (w ∷ ws) ∷ map (shard_text peers) ts
  unfolding words_from shards_body
  words-shards_body w ws [] a = refl
  words-shards_body w ws (t ∷ ts) a =
      let (v, vs, e) = shard_cons t in
      let begun =
        words_from-append [] (shard_text peers t) (shards_body peers ts false)
          (shard_text-spaces t a.0) in
      ap (◌∷◌ (w ∷ ws)) (begun ∙ rw e (words-shards_body v vs ts a.1))

  words_of_shards :
      (ts : List Tablet)
      → AllReadable peers ts
      → words_from [] (b' ' ∷ shards_body peers ts true) ≡ map (shard_text peers) ts
  unfolding words_from shards_body
  words_of_shards [] a = refl
  words_of_shards (t ∷ ts) a =
      let (v, vs, e) = shard_cons t in
      let begun =
        words_from-append [] (shard_text peers t) (shards_body peers ts false)
          (shard_text-spaces t a.0) in
      begun ∙ rw e (words-shards_body v vs ts a.1)

  starts_up :
      (from : Bytes) (t u : Tablet) (rest : List Tablet)
      → CoversFrom from (t ∷ u ∷ rest)
      → lt_bytes u.start_key t.start_key ≡ false
  starts_up from t u rest c =
      rw (c.0, CoversFrom-head t.end_key u rest c.2) (lt_bytes_asymm from t.end_key c.1)

  -- A cover is in the order of its starts already.
  sort_by_start-CoversFrom :
      (from : Bytes) (ts : List Tablet)
      → CoversFrom from ts
      → sort_by_start (map (cached peers) ts) ≡ map (cached peers) ts
  unfolding sort_by_start insert_by_start
  sort_by_start-CoversFrom from [] c = refl
  sort_by_start-CoversFrom from (t ∷ []) c = refl
  sort_by_start-CoversFrom from (t ∷ u ∷ rest) c =
      rw (sort_by_start-CoversFrom t.end_key (u ∷ rest) c.2)
        (insert_first t u rest (starts_up from t u rest c))

  -- What FetchRouteTable reads from the text that HandleMasterShards writes is the table, with the
  -- addresses of the nodes, if the tablets cut the key space, are fewer than 2^64, and are readable:
  -- no boundary and no ip has a blank or a colon, the ids have 64 bits, and every node is a peer.
  pub tablets_of_body-shards :
      (ts : List Tablet)
      → IsPartition ts
      → AllReadable peers ts
      → length ts < 18446744073709551616
      → tablets_of_body (to_string (length ts) ++ (b' ' ∷ shards_body peers ts true))
        ≡ some (map (cached peers) ts)
  unfolding tablets_of_body
  tablets_of_body-shards ts c a h =
      let count = read_unsigned-to_string (length ts) (b' ' ∷ shards_body peers ts true) h refl in
      rw
        (
          count,
          tablets_of_body,
          words_of_shards ts a,
          tablets_of_shards ts a,
          sort_by_start-CoversFrom [] ts c,
        )
        refl
