-- ===== src/Cluster/Put.antt =====
-- What clients are served after a PUT or a DELETE at the node of the key's tablet.
use le_kv.Base.{
  ℕ, ◌+◌, ◌<◌, true, false, Option, none, some, [], ◌∷◌, ◌≡◌, ◌≢◌, refl, ap, sym, ◌∙◌, arith, ◌==◌,
  length, if◌then◌else◌, inl, inr, Bool-cases,
}
use le_kv.Bytes.{Bytes}
use le_kv.Protocol.{op_put, st_ok}
use le_kv.Protocol.RoundTrip.{request_payload}
use le_kv.Storage
use le_kv.Storage.Api.{LevelDb, eq_bytes}
use le_kv.Storage.Entries.{eq_bytes→eq, eq_bytes_refl}
use le_kv.Routing.{Table, Tablet, get_tablet_route}
use le_kv.Dispatch.{Node, is_master, handle_binary_request}
use le_kv.Server.KeyValue.{data_node_put}
use le_kv.Cluster.Served.{stored_on, served}

module _ (level : LevelDb) where
  -- The nodes, with one of them changed.
  abbrev pub with_node : (ℕ → Node level) → ℕ → Node level → ℕ → Node level
  with_node node id n j = if j == id then n else node j

  -- Where no node's value of a key changes, what is served for it stays.
  served_ext :
      (node node' : ℕ → Node level) (table : Table) (key : Bytes)
      → ((j : ℕ) → stored_on level (node' j) key ≡ stored_on level (node j) key)
      → served level node' table key ≡ served level node table key
  unfolding served
  served_ext node node' table key h = go (get_tablet_route table.tablets key)
    where
      go :
          (r : Option (Option Tablet))
          → (elim r [
            | none ↦ none
            | some x ↦ elim x [ none ↦ none | some t ↦ stored_on level (node' t.node_id) key ]
          ])
            ≡ (elim r [
              | none ↦ none
              | some x ↦ elim x [ none ↦ none | some t ↦ stored_on level (node t.node_id) key ]
            ])
      go none = refl
      go (some none) = refl
      go (some (some t)) = h t.node_id

  module _ (node : ℕ → Node level) (table : Table) (key v : Bytes) (t : Tablet) (n : Node level)
      (d : level.Db) (route : get_tablet_route table.tablets key ≡ some (some t))
      (here_now : node t.node_id ≡ record n { storage = some d })
      (good : (level.put d key v).0 ≡ true) where
    abbrev after_put : Node level
    after_put = record n { storage = some (level.put d key v).1 }

    served-put_self : served level (with_node node t.node_id after_put) table key ≡ some v
    unfolding served stored_on Storage.get
    served-put_self =
        let same : (t.node_id == t.node_id) ≡ true = ground arith in
        rw (served, route, same) (level.get-put_self d key v good)

    stored_on-put_ne :
        (k : Bytes) (j : ℕ)
        → key ≢ k
        → stored_on level (with_node node t.node_id after_put j) k ≡ stored_on level (node j) k
    unfolding stored_on Storage.get
    stored_on-put_ne k j away = elim (Bool-cases (j == t.node_id)) [
      | inr other ↦ rw other refl
      | inl e ↦
          let same : j ≡ t.node_id = ground arith in
          rw e (
            level.get-put_ne d key v k away
            ∙ sym (
                ap (λ i. stored_on level (node i) k) same ∙ ap (λ x. stored_on level x k) here_now))
    ]

    served-put :
        (k : Bytes)
        → served level (with_node node t.node_id after_put) table k
          ≡ (if eq_bytes key k then some v else served level node table k)
    served-put k = elim (Bool-cases (eq_bytes key k)) [
      | inl e ↦
          let same : key ≡ k = eq_bytes→eq key k e in
          rw e (
            ap (served level (with_node node t.node_id after_put) table) (sym same)
            ∙ served-put_self)
      | inr other ↦
          let away : key ≢ k =
            λ q. let r : eq_bytes key k ≡ true = rw q (eq_bytes_refl k) in ground arith in
          rw other (
            served_ext node (with_node node t.node_id after_put) table k
              (λ j. stored_on-put_ne k j away))
    ]

  -- A PUT of a key that GetTabletRoute routes to a data node with its database, sent there, is
  -- answered OK if the Put of the database succeeds, the key is shorter than 2^16 bytes and the frame
  -- fits 32 bits; the code tests no other bound of a key or a value. Afterwards the key is served the
  -- value that was put, and every other key the value it was served before.
  pub put_routed-served :
      (node : ℕ → Node level) (table : Table) (key v : Bytes) (t : Tablet) (n : Node level)
      (d : level.Db)
      → get_tablet_route table.tablets key ≡ some (some t)
      → node t.node_id ≡ record n { storage = some d }
      → is_master level n ≡ false
      → length key < 65536
      → 17 + length key + length v < 4294967296
      → (level.put d key v).0 ≡ true
      → (n' : Node level) × (handle_binary_request level
            (node t.node_id)
            (request_payload op_put key v)
          ≡ some (st_ok ∷ [], n'))
        × ((k : Bytes)
            → served level (with_node node t.node_id n') table k
              ≡ (if eq_bytes key k then some v else served level node table k))
  unfolding Storage.put
  put_routed-served node table key v t n d route here_now m_no hk hv good = (
    after_put node table key v t n d route here_now good,
    rw here_now (data_node_put level n d key v 0 0 m_no hk hv good),
    served-put node table key v t n d route here_now good,
  )
