-- ===== src/Storage/Entries.antt =====
-- Ascending lists of entries: what they hold under a key determines them.
use le_kv.Base.{true, false, none, some, List, [], ◌∷◌, ◌≡◌, refl, ap, sym, ◌∙◌, arith}
use le_kv.Bytes.{Bytes, lt_bytes}
use le_kv.Bytes.Order.{
  lt_bytes_irrefl, lt_bytes_asymm, lt_bytes_trans, lt_bytes_connex, le_lt_trans,
}
use le_kv.Storage.Api.{Entry, AllAbove, IsAscending, eq_bytes, find}

pub eq_bytes→eq : (a b : Bytes) → eq_bytes a b ≡ true → a ≡ b
eq_bytes→eq a b h = ground (arith, lt_bytes_connex a b)

pub eq_bytes_refl : (a : Bytes) → eq_bytes a a ≡ true
eq_bytes_refl a = ground (arith, lt_bytes_irrefl a)

pub AllAbove-trans :
    (k j : Bytes) (r : List Entry) → lt_bytes k j ≡ true → AllAbove j r → AllAbove k r
AllAbove-trans k j [] h a = tt
AllAbove-trans k j ((i, v) ∷ r) h a = (lt_bytes_trans k j i h a.0, AllAbove-trans k j r h a.1)

-- A key at or below the bound of a list is not in it.
pub find-AllAbove :
    (k j : Bytes) (r : List Entry) → AllAbove k r → lt_bytes k j ≡ false → find j r ≡ none
unfolding find
find-AllAbove k j [] a h = refl
find-AllAbove k j ((i, v) ∷ r) a h =
    ground (arith, find-AllAbove k j r a.1 h, le_lt_trans j k i h a.0)

find_head : (k v : Bytes) (r : List Entry) → find k ((k, v) ∷ r) ≡ some v
unfolding find
find_head k v r = ground (arith, eq_bytes_refl k)

find_nil : (k : Bytes) → find k [] ≡ none
unfolding find
find_nil k = refl

-- The first keys of two ascending lists that agree under the first key are in order.
first_le :
    (k v j w : Bytes) (xs ys : List Entry)
    → IsAscending ((j, w) ∷ ys)
    → find k ((k, v) ∷ xs) ≡ find k ((j, w) ∷ ys)
    → lt_bytes k j ≡ false
first_le k v j w xs ys b h = ground (
  arith,
  find_head k v xs,
  find-AllAbove k k ((j, w) ∷ ys),
  AllAbove-trans k j ys,
  lt_bytes_irrefl k,
)

-- Equal first keys can be dropped from both lists.
find_tails :
    (k v w : Bytes) (xs ys : List Entry)
    → AllAbove k xs
    → AllAbove k ys
    → ((i : Bytes) → find i ((k, v) ∷ xs) ≡ find i ((k, w) ∷ ys))
    → (i : Bytes) → find i xs ≡ find i ys
unfolding find
find_tails k v w xs ys a b h i =
    ground (arith, h i, find-AllAbove k i xs a, find-AllAbove k i ys b, lt_bytes_asymm k i)

-- Two ascending lists with the same value under every key are equal.
pub ascending_ext :
    (xs ys : List Entry)
    → IsAscending xs
    → IsAscending ys
    → ((k : Bytes) → find k xs ≡ find k ys)
    → xs ≡ ys
ascending_ext [] [] a b h = refl
ascending_ext [] ((k, v) ∷ ys) a b h = cc (h k, find_head k v ys, find_nil k)
ascending_ext ((k, v) ∷ xs) [] a b h = cc (h k, find_head k v xs, find_nil k)
ascending_ext ((k, v) ∷ xs) ((j, w) ∷ ys) a b h =
    let e : k ≡ j =
      lt_bytes_connex k j (first_le k v j w xs ys b (h k)) (first_le j w k v ys xs a (sym (h j))) in
    let same : (i : Bytes) → find i xs ≡ find i ys =
      find_tails k v w xs ys a.0 (rw e b.0)
        (λ i. h i ∙ ap (λ (t : Bytes). find i ((t, w) ∷ ys)) (sym e)) in
    let vw : some v ≡ some w =
      sym (find_head k v xs)
      ∙ h k
      ∙ ap (λ (t : Bytes). find k ((t, w) ∷ ys)) (sym e)
      ∙ find_head k w ys in
    cc (e, vw, ascending_ext xs ys a.1 b.1 same)
