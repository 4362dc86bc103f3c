-- ===== src/TypeTags/Sizes.antt =====
-- The sizes of the types that are registered.
use le_kv.Base.{ℕ, false, ◌≡◌, refl, ltb}
use le_kv.TypeTags.{
  CppType, int8_t, uint8_t, int16_t, uint16_t, int32_t, uint32_t, int64_t, uint64_t, float_t,
  double_t, bool_t, char_t, other, tag_value, type_tag_of, is_scalar_tag, query_type_tag_info,
}

-- sizeof, of the types that have a tag.
abbrev size_of : CppType → ℕ
size_of int8_t = 1
size_of uint8_t = 1
size_of int16_t = 2
size_of uint16_t = 2
size_of int32_t = 4
size_of uint32_t = 4
size_of int64_t = 8
size_of uint64_t = 8
size_of float_t = 4
size_of double_t = 8
size_of bool_t = 1
size_of char_t = 1
size_of other = 0

-- What the front end takes for a scalar is what the back end reads as one: for each C++ type, the size
-- of its tag is the size of the type, if that is registered, and 0 otherwise; the tag is a scalar
-- exactly if its size is not 0; and no tag of a type is one of a string.
pub query-type_tag_of :
    (t : CppType)
    → ((query_type_tag_info (type_tag_of t)).fixed_size ≡ size_of t)
      × (is_scalar_tag (type_tag_of t) ≡ ltb 0 (query_type_tag_info (type_tag_of t)).fixed_size)
      × ((query_type_tag_info (type_tag_of t)).is_string ≡ false)
unfolding query_type_tag_info type_tag_of is_scalar_tag tag_value
query-type_tag_of int8_t = (refl, refl, refl)
query-type_tag_of uint8_t = (refl, refl, refl)
query-type_tag_of int16_t = (refl, refl, refl)
query-type_tag_of uint16_t = (refl, refl, refl)
query-type_tag_of int32_t = (refl, refl, refl)
query-type_tag_of uint32_t = (refl, refl, refl)
query-type_tag_of int64_t = (refl, refl, refl)
query-type_tag_of uint64_t = (refl, refl, refl)
query-type_tag_of float_t = (refl, refl, refl)
query-type_tag_of double_t = (refl, refl, refl)
query-type_tag_of bool_t = (refl, refl, refl)
query-type_tag_of char_t = (refl, refl, refl)
query-type_tag_of other = (refl, refl, refl)
