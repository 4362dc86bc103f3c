-- ===== src/Migration/Tables.antt =====
-- A migration changes the node of one tablet and nothing else of the routing table.
use le_kv.Base.{
  ℕ, zero, suc, ◌+◌, Bool, true, false, not, Option, none, some, List, [], ◌∷◌, ◌≡◌, ◌≢◌, refl, ap,
  ◌∙◌, if◌then◌else◌, arith, get_elem?, set, inl, inr, ◌==◌,
}
use le_kv.Bytes.{Bytes}
use le_kv.Bytes.Endian.{u32}
use le_kv.Exec.{Exec, pure, lift, gets, if-eq-some, ◌>>=◌, ◌>>◌}
use le_kv.Exec
use le_kv.Master.{Master, send_delete_range}
use le_kv.Master.Interface.{Env}
use le_kv.Master.Keeps.{
  KeepsTable, KeepsTable-pure, KeepsTable-lift, KeepsTable-bind, KeepsTable-call,
  KeepsTable-save_tablets, KeepsTable-send_delete_range, keeps_table,
}
use le_kv.Routing.{Table, Tablet}
use le_kv.Routing.Partition.{CoversFrom, contains, owner, CoversFrom-disjoint}
use le_kv.Balancer.Cut.{node_of}
use le_kv.Migration.Replace.{IsTable-set}
use le_kv.Balancer.Split.{IsTable, node_for}
use le_kv.Migration.{
  moved_table, answered, next_entry, send_entry, transfer_entries, transfer_loop, transfer_payload,
  scan_and_transfer_data, commit_move, migrate_found, migrate_tablet,
}

-- The tablet on another node.
abbrev on_node : Tablet → ℕ → Tablet
on_node t dst = record t { node_id = dst }

module _ (t : Tablet) (dst : ℕ) where
  -- Only the keys of the tablet get another node.
  node_of-set :
      (key from : Bytes) (ts : List Tablet) (idx : ℕ)
      → CoversFrom from ts
      → get_elem? ts idx ≡ some t
      → node_of (owner key (set ts idx (on_node t dst)))
        ≡ (if contains t key then some dst else node_of (owner key ts))
  unfolding owner
  node_of-set key from [] idx v g = cc
  node_of-set key from (u ∷ ts) zero v g = let same : u ≡ t = cc in ground arith
  node_of-set key from (u ∷ []) (suc idx) v g = cc
  node_of-set key from (u ∷ w ∷ ts) (suc idx) v g = ground (
    arith,
    node_of-set key u.end_key (w ∷ ts) idx v.2 g,
    CoversFrom-disjoint from (u ∷ w ∷ ts) key 0 (suc idx) u t v (omega arith) refl g,
  )

pub moved_table-IsTable :
    (idx : ℕ) (t : Tablet) (dst : ℕ) (table : Table)
    → get_elem? table.tablets idx ≡ some t
    → IsTable table
    → IsTable (moved_table idx t dst table)
unfolding moved_table
moved_table-IsTable idx t dst table g v =
    IsTable-set t (on_node t dst) (record { id = refl; start = refl; end = refl }) table idx _ g v

module _ (env : Env) where
  KeepsTable-send_entry :
      (dst i transferred : ℕ) (next : ℕ → ℕ → Exec (Master env) ℕ)
      (entry : Option (Bytes × Bytes × ℕ))
      → ((pos n : ℕ) → KeepsTable (next pos n))
      → KeepsTable (send_entry env dst i transferred next entry)
  unfolding send_entry
  KeepsTable-send_entry dst i transferred next none k = KeepsTable-pure transferred
  KeepsTable-send_entry dst i transferred next (some (key, value, pos)) k =
      KeepsTable-bind _ _ (KeepsTable-call env dst _)
        λ resp. k pos (if answered resp then u32 (transferred + 1) else transferred)

  KeepsTable-transfer_loop :
      (dst : ℕ) (p : Bytes) (left i pos transferred : ℕ)
      → KeepsTable (transfer_loop env dst p left i pos transferred)
  unfolding transfer_loop
  KeepsTable-transfer_loop dst p zero i pos transferred = KeepsTable-pure transferred
  KeepsTable-transfer_loop dst p (suc left) i pos transferred =
      KeepsTable-bind (lift (next_entry p pos)) _ (KeepsTable-lift (next_entry p pos)) λ entry.
        KeepsTable-send_entry dst i transferred (transfer_loop env dst p left (i + 1)) entry
          λ pos' n. KeepsTable-transfer_loop dst p left (i + 1) pos' n

  KeepsTable-transfer_entries :
      (dst : ℕ) (p : Bytes) (count : Option ℕ) → KeepsTable (transfer_entries env dst p count)
  unfolding transfer_entries
  KeepsTable-transfer_entries dst p none = KeepsTable-pure false
  KeepsTable-transfer_entries dst p (some count) = search (keeps_table, KeepsTable-transfer_loop)

  KeepsTable-transfer_payload :
      (dst : ℕ) (resp : Option Bytes) → KeepsTable (transfer_payload env dst resp)
  unfolding transfer_payload
  KeepsTable-transfer_payload dst none = KeepsTable-pure false
  KeepsTable-transfer_payload dst (some p) = search (keeps_table, KeepsTable-transfer_entries)

  KeepsTable-scan_and_transfer_data :
      (src dst : ℕ) (start stop : Bytes)
      → KeepsTable (scan_and_transfer_data env src dst start stop)
  unfolding scan_and_transfer_data
  KeepsTable-scan_and_transfer_data src dst start stop =
      search (keeps_table, KeepsTable-transfer_payload)

  -- The two ways in which MigrateTablet returns.
  abbrev pub DidMove : ℕ → ℕ → Bool → Table → Table → Type 0
  DidMove idx dst false t t' = t' ≡ t
  DidMove idx dst true t t' =
      (moved : Tablet) × (get_elem? t.tablets idx ≡ some moved)
      × (moved.node_id ≢ dst)
      × (t' ≡ moved_table idx moved dst t)

  stayed :
      (idx dst : ℕ) (m m' : Master env) (b : Bool)
      → pure {A = Bool} false m ≡ some (b, m')
      → DidMove idx dst b m.table m'.table
  stayed idx dst m m' false e = ground arith
  stayed idx dst m m' true e = cc

  commit_move-table :
      (idx : ℕ) (t : Tablet) (dst : ℕ) (m m' : Master env) (u : Unit {0})
      → commit_move env idx t dst (some t) m ≡ some (u, m')
      → m'.table ≡ moved_table idx t dst m.table
  unfolding commit_move
  commit_move-table idx t dst m m' u e = elim (if-eq-some (t.id == t.id) _ (pure tt) m (u, m') e) [
    | inl (_s, r) ↦
        (KeepsTable-save_tablets env).at (record m { table = moved_table idx t dst m.table }) m' u r
    | inr (n, _r) ↦ absurd (ground arith)
  ]

  -- From the update of the table on, nothing stops MigrateTablet from returning true.
  moved_on :
      (idx : ℕ) (t : Tablet) (dst : ℕ) (found : Option Tablet) (m m' : Master env) (b : Bool)
      → found ≡ some t
      → (do
        commit_move env idx t dst found
        deleted ← send_delete_range env t.node_id t.start_key t.end_key
        pure true)
          m
        ≡ some (b, m')
      → (b ≡ true) × (m'.table ≡ moved_table idx t dst m.table)
  moved_on idx t dst none m m' b f e = cc
  moved_on idx t dst (some now) m m' b f e =
      let same : now ≡ t = cc in
      let (u, m1, p, rest) = Exec.>>=-eq-some (commit_move env idx t dst (some now)) _ m m' b e in
      let (deleted, m2, q, last) =
        Exec.>>=-eq-some (send_delete_range env t.node_id t.start_key t.end_key) (λ _. pure true) m1
          m' b rest in
      let kept =
        (KeepsTable-send_delete_range env t.node_id t.start_key t.end_key).at m1 m2 deleted q in
      (cc, cc (kept, commit_move-table idx t dst m m1 u (rw same at p)))

  migrate_found-DidMove :
      (idx dst : ℕ) (found : Option Tablet) (m m' : Master env) (b : Bool)
      → get_elem? m.table.tablets idx ≡ found
      → migrate_found env idx dst found m ≡ some (b, m')
      → DidMove idx dst b m.table m'.table
  unfolding migrate_found
  migrate_found-DidMove idx dst none m m' b g e = stayed idx dst m m' b e
  migrate_found-DidMove idx dst (some t) m m' b g e =
      elim (if-eq-some (t.node_id == dst) (pure false) _ m (b, m') e) [
        | inl (_there, r) ↦ stayed idx dst m m' b r
        | inr (away, r) ↦
            let (copied, m1, q, rest) =
              Exec.>>=-eq-some (scan_and_transfer_data env t.node_id dst t.start_key t.end_key) _ m
                m' b r in
            let same : m1.table ≡ m.table =
              (KeepsTable-scan_and_transfer_data t.node_id dst t.start_key t.end_key).at m m1 copied
                q in
            elim (if-eq-some (not copied) (pure false) _ m1 (b, m') rest) [
              | inl (_failed, r') ↦ rw same at (stayed idx dst m1 m' b r')
              | inr (_done, r') ↦
                  let (yes_b, k) =
                    moved_on idx t dst (get_elem? m1.table.tablets idx) m1 m' b (rw same g) r' in
                  rw yes_b (t, g, ground arith, k ∙ ap (moved_table idx t dst) same)
            ]
      ]

  -- MigrateTablet returns false with the routing table as it was, or true with the node of its
  -- tablet, which was another one, replaced by the destination, a new epoch, and nothing else.
  pub migrate_tablet-DidMove :
      (idx dst : ℕ) (m m' : Master env) (b : Bool)
      → migrate_tablet env idx dst m ≡ some (b, m')
      → DidMove idx dst b m.table m'.table
  unfolding migrate_tablet
  migrate_tablet-DidMove idx dst m m' b e =
      migrate_found-DidMove idx dst (get_elem? m.table.tablets idx) m m' b refl e

  -- MigrateTablet that returns true keeps the routing table sound: the tablets still cut the key
  -- space, with distinct ids below the next id; the keys of the tablet go to the destination, and
  -- every other key goes where it went before.
  pub migrate_tablet-IsTable :
      (idx dst : ℕ) (m m' : Master env)
      → IsTable m.table
      → migrate_tablet env idx dst m ≡ some (true, m')
      → IsTable m'.table
        × ((moved : Tablet) × (get_elem? m.table.tablets idx ≡ some moved)
            × ((key : Bytes)
                → node_for key m'.table
                  ≡ (if contains moved key then some dst else node_for key m.table)))
  unfolding moved_table
  migrate_tablet-IsTable idx dst m m' v e =
      let (t, g, _n, k) = migrate_tablet-DidMove idx dst m m' true e in
      (
        rw k (moved_table-IsTable idx t dst m.table g v),
        (
          t,
          g,
          λ key. ap (node_for key) k ∙ node_of-set t dst key [] m.table.tablets idx v.partition g,
        ),
      )
