-- ===== src/Dispatch/Writes.antt =====
-- What a request can change on the node that answers it.
use le_kv.Base.{
  ℕ, Bool, true, false, Option, none, some, [], ◌∷◌, ◌≡◌, refl, ◌⊎◌, inl, inr, arith, if◌then◌else◌,
  ◌>>=◌,
}
use le_kv.Bytes.{Bytes}
use le_kv.Protocol.{st_timeout, op_put, op_delete, op_delete_range}
use le_kv.Storage.Api.{LevelDb}
use le_kv.DataNode.{
  handle_put, handle_get, handle_delete, handle_tablet_stats, handle_scan_range,
  handle_delete_range, get_reply,
}
use le_kv.Dispatch.{
  handle_master_get_route, Node, is_master, unchanged, stored, master_request, data_node_request,
  handle_binary_request,
}

module _ (level : LevelDb) where
  open level use {Db}

  -- Wherever the handler returns, the storage is as it was.
  record KeepsStorage (s : Option Db) (r : Option (Bytes × Option Db)) : Type 0 where
    at : (payload : Bytes) (s' : Option Db) → r ≡ some (payload, s') → s' ≡ s

  module _ (s : Option Db) where
    KeepsStorage-some : (payload : Bytes) → KeepsStorage s (some (payload, s))
    KeepsStorage-some payload = record { at = λ p s' e. ground arith }

    KeepsStorage-if :
        (b : Bool) (x y : Option (Bytes × Option Db))
        → KeepsStorage s x
        → KeepsStorage s y
        → KeepsStorage s (if b then x else y)
    KeepsStorage-if true x y kx ky = kx
    KeepsStorage-if false x y kx ky = ky

    KeepsStorage-bind :
        {A : Type 0} (o : Option A) (f : A → Option (Bytes × Option Db))
        → ((a : A) → KeepsStorage s (f a))
        → KeepsStorage s (o >>= f)
    KeepsStorage-bind none f k = record { at = λ p s' e. cc }
    KeepsStorage-bind (some a) f k = k a

  ruleset keeps_storage = (KeepsStorage-some, KeepsStorage-if, KeepsStorage-bind)

  KeepsStorage-get_reply : (s : Option Db) (key : Bytes) → KeepsStorage s (get_reply level s key)
  unfolding get_reply
  KeepsStorage-get_reply none key = KeepsStorage-some none (st_timeout ∷ [])
  KeepsStorage-get_reply (some d) key = record { at = λ p s' e. ground arith }

  KeepsStorage-handle_get : (s : Option Db) (p : Bytes) → KeepsStorage s (handle_get level s p)
  unfolding handle_get
  KeepsStorage-handle_get s p = search (keeps_storage, KeepsStorage-get_reply) depth 10

  KeepsStorage-handle_tablet_stats :
      (s : Option Db) (p : Bytes) → KeepsStorage s (handle_tablet_stats level s p)
  unfolding handle_tablet_stats
  KeepsStorage-handle_tablet_stats s p = record { at = λ r s' e. ground arith }

  KeepsStorage-handle_scan_range :
      (s : Option Db) (p : Bytes) → KeepsStorage s (handle_scan_range level s p)
  unfolding handle_scan_range
  KeepsStorage-handle_scan_range none p = record { at = λ r s' e. ground arith }
  KeepsStorage-handle_scan_range (some d) p = record { at = λ r s' e. ground arith }

  -- The node after a request: as it was, or, on a data node and for one of the three opcodes that
  -- write, with another storage and nothing else changed.
  abbrev pub DidWrite : ℕ → Node level → Node level → Type 0
  DidWrite opcode n n' =
      (n' ≡ n)
      ⊎ ((is_master level n ≡ false)
          × ((opcode ≡ op_put) ⊎ ((opcode ≡ op_delete) ⊎ (opcode ≡ op_delete_range)))
          × (n' ≡ record n { storage = n'.storage }))

  unchanged-same :
      (n n' : Node level) (o : Option Bytes) (r : Bytes)
      → unchanged level n o ≡ some (r, n')
      → n' ≡ n
  unchanged-same n n' none r e = cc
  unchanged-same n n' (some p) r e = ground arith

  stored-storage :
      (n n' : Node level) (o : Option (Bytes × Option Db)) (r : Bytes)
      → stored level n o ≡ some (r, n')
      → n' ≡ record n { storage = n'.storage }
  stored-storage n n' none r e = cc
  stored-storage n n' (some p) r e = ground arith

  stored-same :
      (n n' : Node level) (o : Option (Bytes × Option Db)) (r : Bytes)
      → KeepsStorage n.storage o
      → stored level n o ≡ some (r, n')
      → n' ≡ n
  stored-same n n' none r k e = cc
  stored-same n n' (some (p, s)) r k e = let same = k.at p s refl in ground arith

  if-eq :
      (b : Bool) (x y : Option (Bytes × Node level)) (r : Bytes × Node level)
      → (if b then x else y) ≡ some r
      → ((b ≡ true) × (x ≡ some r)) ⊎ ((b ≡ false) × (y ≡ some r))
  if-eq true x y r e = inl (refl, e)
  if-eq false x y r e = inr (refl, e)

  module _ (n n' : Node level) (opcode : ℕ) (p r : Bytes) where
    master_request-same : master_request level n opcode p ≡ some (r, n') → n' ≡ n
    unfolding master_request
    master_request-same e =
        ground (arith, unchanged-same n n' (handle_master_get_route n.peers n.table p) r)

    data_node_request-DidWrite :
        is_master level n ≡ false
        → data_node_request level n opcode p ≡ some (r, n')
        → DidWrite opcode n n'
    unfolding data_node_request
    data_node_request-DidWrite m e = ground (
      arith,
      stored-storage n n' (handle_put level n.storage p) r,
      stored-storage n n' (handle_delete level n.storage p) r,
      stored-storage n n' (handle_delete_range level n.storage p) r,
      stored-same n n' (handle_get level n.storage p) r (KeepsStorage-handle_get n.storage p),
      stored-same n n' (handle_tablet_stats level n.storage p) r
          (KeepsStorage-handle_tablet_stats n.storage p),
      stored-same n n' (handle_scan_range level n.storage p) r
          (KeepsStorage-handle_scan_range n.storage p),
    )

  -- A request that is answered changes nothing on a master; on a data node it changes nothing but
  -- the storage, and only if it is a PUT, a DELETE or a DELETE_RANGE.
  pub handle_binary_request-DidWrite :
      (n n' : Node level) (opcode : ℕ) (rest r : Bytes)
      → handle_binary_request level n (opcode ∷ rest) ≡ some (r, n')
      → DidWrite opcode n n'
  unfolding handle_binary_request
  handle_binary_request-DidWrite n n' opcode rest r e =
      elim (if-eq (is_master level n) _ _ (r, n') e) [
        | inl (_m, x) ↦ inl (master_request-same n n' opcode (opcode ∷ rest) r x)
        | inr (d, x) ↦ data_node_request-DidWrite n n' opcode (opcode ∷ rest) r d x
      ]
