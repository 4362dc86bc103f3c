-- ===== src/Storage/Sorted.antt =====
-- A database that keeps its entries in an ascending list, and never fails, meets the interface.
use le_kv.Base.{Bool, true, none, some, List, [], ◌∷◌, ◌≡◌, ◌≢◌, refl, if◌then◌else◌, arith}
use le_kv.Bytes.{Bytes, lt_bytes, le_bytes}
use le_kv.Bytes.Order.{lt_bytes_asymm, lt_bytes_trans, lt_bytes_connex, le_lt_trans, lt_le_trans}
use le_kv.Storage.Api.{LevelDb, Entry, AllAbove, IsAscending, eq_bytes, find}
use le_kv.Storage.Entries.{eq_bytes→eq, eq_bytes_refl, find-AllAbove, AllAbove-trans}

unfoldable pub insert : Bytes → Bytes → List Entry → List Entry
insert k v [] = (k, v) ∷ []
insert k v ((j, w) ∷ es) =
    if lt_bytes k j
    then (k, v) ∷ (j, w) ∷ es
    else if lt_bytes j k
    then (j, w) ∷ insert k v es
    else (k, v) ∷ es

unfoldable pub remove : Bytes → List Entry → List Entry
remove k [] = []
remove k ((j, w) ∷ es) = if eq_bytes j k then es else (j, w) ∷ remove k es

unfoldable pub from : Bytes → List Entry → List Entry
from start [] = []
from start ((j, w) ∷ es) = if lt_bytes j start then from start es else (j, w) ∷ es

AllAbove-insert :
    (i k v : Bytes) (es : List Entry)
    → lt_bytes i k ≡ true
    → AllAbove i es
    → AllAbove i (insert k v es)
unfolding insert
AllAbove-insert i k v [] h a = (h, tt)
AllAbove-insert i k v ((j, w) ∷ es) h a = ground (arith, AllAbove-insert i k v es h a.1)

pub IsAscending-insert :
    (k v : Bytes) (es : List Entry) → IsAscending es → IsAscending (insert k v es)
unfolding insert
IsAscending-insert k v [] a = (tt, tt)
IsAscending-insert k v ((j, w) ∷ es) a = ground (
  arith,
  IsAscending-insert k v es a.1,
  AllAbove-insert j k v es,
  AllAbove-trans k j es,
  lt_bytes_connex k j,
)

AllAbove-remove : (i k : Bytes) (es : List Entry) → AllAbove i es → AllAbove i (remove k es)
unfolding remove
AllAbove-remove i k [] a = tt
AllAbove-remove i k ((j, w) ∷ es) a = ground (arith, AllAbove-remove i k es a.1)

pub IsAscending-remove : (k : Bytes) (es : List Entry) → IsAscending es → IsAscending (remove k es)
unfolding remove
IsAscending-remove k [] a = tt
IsAscending-remove k ((j, w) ∷ es) a =
    ground (arith, IsAscending-remove k es a.1, AllAbove-remove j k es a.0)

pub IsAscending-from : (k : Bytes) (es : List Entry) → IsAscending es → IsAscending (from k es)
unfolding from
IsAscending-from k [] a = tt
IsAscending-from k ((j, w) ∷ es) a = ground (arith, IsAscending-from k es a.1)

pub find-insert_self : (k v : Bytes) (es : List Entry) → find k (insert k v es) ≡ some v
unfolding find insert
find-insert_self k v [] = ground (arith, eq_bytes_refl k)
find-insert_self k v ((j, w) ∷ es) = ground (arith, eq_bytes_refl k, find-insert_self k v es)

pub find-insert_ne : (k v j : Bytes) (es : List Entry) → k ≢ j → find j (insert k v es) ≡ find j es
unfolding find insert
find-insert_ne k v j [] n = ground (arith, eq_bytes→eq k j)
find-insert_ne k v j ((i, w) ∷ es) n =
    ground (arith, eq_bytes→eq k j, find-insert_ne k v j es n, lt_bytes_connex k i)

pub find-remove_self : (k : Bytes) (es : List Entry) → IsAscending es → find k (remove k es) ≡ none
unfolding find remove
find-remove_self k [] a = refl
find-remove_self k ((j, w) ∷ es) a =
    ground (arith, find-remove_self k es a.1, find-AllAbove j k es a.0, eq_bytes→eq j k)

pub find-remove_ne : (k j : Bytes) (es : List Entry) → k ≢ j → find j (remove k es) ≡ find j es
unfolding find remove
find-remove_ne k j [] n = refl
find-remove_ne k j ((i, w) ∷ es) n =
    ground (arith, find-remove_ne k j es n, eq_bytes→eq i k, eq_bytes→eq i j)

pub find-from :
    (k start : Bytes) (es : List Entry)
    → IsAscending es
    → find k (from start es) ≡ (if le_bytes start k then find k es else none)
unfolding find from
find-from k start [] a = ground arith
find-from k start ((j, w) ∷ es) a = ground (
  arith,
  find-from k start es a.1,
  eq_bytes→eq j k,
  find-AllAbove j k es a.0,
  le_lt_trans start j k,
  lt_bytes_trans k start j,
  lt_bytes_connex j k,
  lt_bytes_asymm j k,
  lt_le_trans k start j,
)

abbrev pub SortedDb : Type 0
SortedDb = (es : List Entry) × IsAscending es

abbrev pub sorted_put : SortedDb → Bytes → Bytes → Bool × SortedDb
sorted_put d k v = (true, (insert k v d.0, IsAscending-insert k v d.0 d.1))

abbrev pub sorted_delete : SortedDb → Bytes → Bool × SortedDb
sorted_delete d k = (true, (remove k d.0, IsAscending-remove k d.0 d.1))

abbrev pub sorted_level : LevelDb
sorted_level = record {
  Db = SortedDb;
  put = sorted_put;
  get = λ d k. find k d.0;
  delete = sorted_delete;
  seek = λ d start. from start d.0;
  get-put_self = λ d k v h. find-insert_self k v d.0;
  get-put_ne = λ d k v j n. find-insert_ne k v j d.0 n;
  get-delete_self = λ d k h. find-remove_self k d.0 d.1;
  get-delete_ne = λ d k j n. find-remove_ne k j d.0 n;
  seek-IsAscending = λ d start. IsAscending-from start d.0 d.1;
  find-seek = λ d start k. find-from k start d.0 d.1;
}
