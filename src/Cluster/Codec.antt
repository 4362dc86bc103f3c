-- ===== src/Cluster/Codec.antt =====
-- The entries of a scan, which HandleDataNodeScanRange writes and ScanAndTransferData reads.
use le_kv.Base.{
  ℕ, suc, ◌+◌, ◌<◌, some, List, [], ◌∷◌, ◌++◌, ◌≡◌, refl, ap, sym, ◌∙◌, arith, length,
  length-append, append_assoc, append-nil,
}
use le_kv.Bytes.{Bytes}
use le_kv.Bytes.Endian.{
  be16, be32, u16, u32, read16, read32, slice, read16_past, read32_past, slice_past,
}
use le_kv.DataNode.{scan_entry, scan_body}
use le_kv.Migration.{next_entry}
use le_kv.Storage.Api.{LevelDb, Entry}
use le_kv.Storage.Range.{visit, entries_in, entries_in-IsRange, range_query-visit}

-- An entry in a scan's body: [2B key length][key][4B value length][value].
abbrev pub entry_bytes : Entry → Bytes
entry_bytes (k, v) = be16 (u16 (length k)) ++ (k ++ (be32 (u32 (length v)) ++ v))

abbrev pub entries_bytes : List Entry → Bytes
entries_bytes [] = []
entries_bytes (e ∷ es) = entry_bytes e ++ entries_bytes es

-- What an entry needs to fit its length fields and the frame of a PUT.
abbrev pub EntryFits : Entry → Type 0
EntryFits (k, v) = (length k < 65536) × (17 + length k + length v < 4294967296)

abbrev pub AllFit : List Entry → Type 0
AllFit [] = Unit {0}
AllFit (e ∷ es) = EntryFits e × AllFit es

visit-scan_entry :
    (es : List Entry) (body : Bytes) (count : ℕ)
    → count + length es < 4294967296
    → visit scan_entry es (body, count) ≡ (body ++ entries_bytes es, count + length es)
unfolding visit
visit-scan_entry [] body count h =
    ap (λ n. (body, n)) (omega arith) ∙ ap (λ b. (b, count + 0)) (sym (append-nil body))
visit-scan_entry ((k, v) ∷ es) body count h =
    let next : u32 (count + 1) ≡ count + 1 = omega arith in
    let total : count + 1 + length es ≡ count + suc (length es) = omega arith in
    ap (λ n. visit scan_entry es (body ++ entry_bytes (k, v), n)) next
    ∙ visit-scan_entry es (body ++ entry_bytes (k, v)) (count + 1) (omega arith)
    ∙ ap (λ n. (body ++ entry_bytes (k, v) ++ entries_bytes es, n)) total
    ∙ ap (λ b. (b, count + suc (length es)))
        (append_assoc body (entry_bytes (k, v)) (entries_bytes es))

-- The body of a scan is the count of the entries of its range, and the entries in order.
pub scan_body-entries :
    (level : LevelDb) (d : level.Db) (start stop : Bytes)
    → length (entries_in level d start stop) < 4294967296
    → scan_body level d start stop
      ≡ be32 (length (entries_in level d start stop))
        ++ entries_bytes (entries_in level d start stop)
unfolding scan_body
scan_body-entries level d start stop h =
    let es = entries_in level d start stop in
    let visited =
      range_query-visit level d start stop es scan_entry ([], 0)
        (entries_in-IsRange level d start stop)
      ∙ visit-scan_entry es [] 0 (omega arith) in
    let counted : 0 + length es ≡ length es = omega arith in
    ap (λ (r : Bytes × ℕ). be32 r.1 ++ r.0) visited ∙ ap (λ n. be32 n ++ entries_bytes es) counted

-- A scan's payload, around an entry.
abbrev pub around : Bytes → Bytes → Bytes → Bytes → Bytes
around pre rest k v =
    pre ++ (be16 (u16 (length k)) ++ (k ++ (be32 (u32 (length v)) ++ (v ++ rest))))

-- The round of the transfer at an entry reads the entry, and stops behind it.
module _ (pre rest k v : Bytes) (hk : length k < 65536) (hv : length v < 4294967296) where
  key_length : read16 (around pre rest k v) (length pre) ≡ some (length k)
  key_length =
      read16_past (length pre) (u16 (length k)) pre (k ++ (be32 (u32 (length v)) ++ (v ++ rest)))
        refl (omega arith)
      ∙ ap some (omega arith)

  key_there : slice (around pre rest k v) (length pre + 2) (length k) ≡ some k
  key_there =
      rw (append_assoc pre (be16 (u16 (length k))) (k ++ (be32 (u32 (length v)) ++ (v ++ rest)))) at
        (slice_past (length pre + 2) (length k) (pre ++ be16 (u16 (length k))) k
          (be32 (u32 (length v)) ++ (v ++ rest))
          (omega (arith, length-append pre (be16 (u16 (length k))))) refl)

  abbrev head : Bytes
  head = be16 (u16 (length k)) ++ k

  head_assoc :
      (tail : Bytes) → (pre ++ head) ++ tail ≡ pre ++ (be16 (u16 (length k)) ++ (k ++ tail))
  head_assoc tail =
      append_assoc pre head tail ∙ ap (λ b. pre ++ b) (append_assoc (be16 (u16 (length k))) k tail)

  length-head : length (pre ++ head) ≡ length pre + 2 + length k
  length-head = omega (arith, length-append pre head)

  value_length : read32 (around pre rest k v) (length pre + 2 + length k) ≡ some (length v)
  value_length =
      rw (head_assoc (be32 (u32 (length v)) ++ (v ++ rest))) at (
        read32_past (length pre + 2 + length k) (u32 (length v)) (pre ++ head) (v ++ rest)
          (sym length-head) (omega arith))
      ∙ ap some (omega arith)

  value_there : slice (around pre rest k v) (length pre + 2 + length k + 4) (length v) ≡ some v
  value_there =
      rw
        (
          append_assoc (pre ++ head) (be32 (u32 (length v))) (v ++ rest),
          head_assoc (be32 (u32 (length v)) ++ (v ++ rest)),
        )
        at
        (slice_past (length pre + 2 + length k + 4) (length v)
          ((pre ++ head) ++ be32 (u32 (length v))) v rest
          (omega (arith, length-append (pre ++ head) (be32 (u32 (length v))), length-head)) refl)

  length-around :
      length (around pre rest k v) ≡ length pre + 2 + length k + 4 + length v + length rest
  length-around = omega (
    arith,
    length-append pre (be16 (u16 (length k)) ++ (k ++ (be32 (u32 (length v)) ++ (v ++ rest)))),
    length-append k (be32 (u32 (length v)) ++ (v ++ rest)),
    length-append v rest,
  )

  pub next_entry-around :
      next_entry (around pre rest k v) (length pre)
      ≡ some (some (k, v, length pre + 2 + length k + 4 + length v))
  unfolding next_entry
  next_entry-around =
      ground (arith, key_length, key_there, value_length, value_there, length-around)
