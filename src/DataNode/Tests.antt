-- ===== src/DataNode/Tests.antt =====
-- Each theorem about the data node's handlers at an input.
use le_kv.Base.{none, some, [], ◌∷◌, ◌≡◌, ◌≢◌, refl, arith}
use le_kv.Bytes.{Bytes, lt_bytes}
use le_kv.Bytes.Endian.{read16, read32}
use le_kv.Protocol.{st_ok, st_not_found, op_put, op_get, op_delete}
use le_kv.Protocol.RoundTrip.{request_payload}
use le_kv.Storage
use le_kv.Storage.Sorted.{SortedDb, sorted_level, sorted_put, sorted_delete, insert, remove}
use le_kv.DataNode.{handle_put, handle_get, handle_delete, store_put, store_delete, range_bounds}
use le_kv.DataNode.KeyValue.{get-put_request, get-delete_request}
use le_kv.DataNode.Safety.{range_bounds-ne-none, handle_get_overrun}

abbrev no_db : SortedDb
no_db = ([], tt)

abbrev one_db : SortedDb
one_db = (sorted_put no_db (b'k' ∷ []) (5 ∷ [])).1

abbrev emptied_db : SortedDb
emptied_db = (sorted_delete one_db (b'k' ∷ [])).1

put_run :
    handle_put sorted_level (some no_db) (request_payload op_put (b'k' ∷ []) (5 ∷ []))
    ≡ some (st_ok ∷ [], some one_db)
unfolding handle_put store_put Storage.put insert
put_run = refl

delete_run :
    handle_delete sorted_level (some one_db) (request_payload op_delete (b'k' ∷ []) [])
    ≡ some (st_ok ∷ [], some emptied_db)
unfolding handle_delete store_delete Storage.delete remove lt_bytes
delete_run = refl

get-put_request_example :
    (handle_get sorted_level (some one_db) (request_payload op_get (b'k' ∷ []) [])
      ≡ some (st_ok ∷ 5 ∷ [], some one_db))
    × ((j : Bytes)
        → j ≢ (b'k' ∷ [])
        → Storage.get sorted_level one_db j ≡ Storage.get sorted_level no_db j)
get-put_request_example =
    get-put_request sorted_level no_db (b'k' ∷ []) (omega arith) (5 ∷ []) one_db (omega arith)
      put_run

get-delete_request_example :
    (handle_get sorted_level (some emptied_db) (request_payload op_get (b'k' ∷ []) [])
      ≡ some (st_not_found ∷ [], some emptied_db))
    × ((j : Bytes)
        → j ≢ (b'k' ∷ [])
        → Storage.get sorted_level emptied_db j ≡ Storage.get sorted_level one_db j)
get-delete_request_example =
    get-delete_request sorted_level one_db (b'k' ∷ []) (omega arith) emptied_db delete_run

-- A payload cut short after its key length.
abbrev cut_short : Bytes
cut_short = 2 ∷ 0 ∷ 9 ∷ 0 ∷ 0 ∷ 0 ∷ 0 ∷ b'k' ∷ []

-- A payload whose value length is 2^32 - 7.
abbrev huge_value : Bytes
huge_value = 3 ∷ 0 ∷ 0 ∷ 255 ∷ 255 ∷ 255 ∷ 249 ∷ []

range_bounds-ne-none_example : range_bounds cut_short ≢ none
range_bounds-ne-none_example = range_bounds-ne-none cut_short

handle_get_overrun_example : handle_get sorted_level (some one_db) cut_short ≡ none
unfolding read16 read32
handle_get_overrun_example =
    handle_get_overrun cut_short sorted_level (some one_db) 9 (omega arith) refl refl (omega arith)
