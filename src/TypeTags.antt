-- ===== src/TypeTags.antt =====
-- logger/type_tag.h and type_tag.cpp: the tags of the logger's argument types.
pub mod Sizes
use le_kv.Base.{ℕ, ◌+◌, Bool, true, false, not, ◌&&◌, ◌==◌, List, [], ◌∷◌}

-- TypeTag
pub data TypeTag : Type 0 where
  int8 : TypeTag
  uint8 : TypeTag
  int16 : TypeTag
  uint16 : TypeTag
  int32 : TypeTag
  uint32 : TypeTag
  int64 : TypeTag
  uint64 : TypeTag
  float : TypeTag
  double : TypeTag
  bool : TypeTag
  char : TypeTag
  c_string : TypeTag
  string_view : TypeTag
  std_string : TypeTag
  user_defined : TypeTag
  unknown : TypeTag

-- The values of the enumerators.
unfoldable pub tag_value : TypeTag → ℕ
tag_value int8 = 1
tag_value uint8 = 2
tag_value int16 = 3
tag_value uint16 = 4
tag_value int32 = 5
tag_value uint32 = 6
tag_value int64 = 7
tag_value uint64 = 8
tag_value float = 9
tag_value double = 10
tag_value bool = 11
tag_value char = 12
tag_value c_string = 13
tag_value string_view = 14
tag_value std_string = 15
tag_value user_defined = 1000
tag_value unknown = 0xFFFF

-- The C++ types that LOGGER_REGISTER_TYPE_TAG is used on, and any other one.
pub data CppType : Type 0 where
  int8_t : CppType
  uint8_t : CppType
  int16_t : CppType
  uint16_t : CppType
  int32_t : CppType
  uint32_t : CppType
  int64_t : CppType
  uint64_t : CppType
  float_t : CppType
  double_t : CppType
  bool_t : CppType
  char_t : CppType
  other : CppType

-- TypeTagOf
unfoldable pub type_tag_of : CppType → TypeTag
type_tag_of int8_t = int8
type_tag_of uint8_t = uint8
type_tag_of int16_t = int16
type_tag_of uint16_t = uint16
type_tag_of int32_t = int32
type_tag_of uint32_t = uint32
type_tag_of int64_t = int64
type_tag_of uint64_t = uint64
type_tag_of float_t = float
type_tag_of double_t = double
type_tag_of bool_t = bool
type_tag_of char_t = char
type_tag_of other = unknown

-- is_scalar_tag_v, on the tag of a type; two tags are equal if their values are.
unfoldable pub is_scalar_tag : TypeTag → Bool
unfolding tag_value
is_scalar_tag tag =
    not (tag_value tag == tag_value unknown)
    && not (tag_value tag == tag_value c_string)
    && not (tag_value tag == tag_value string_view)
    && not (tag_value tag == tag_value std_string)

-- TypeTagInfo
pub record TypeTagInfo : Type 0 where
  pub fixed_size : ℕ
  pub is_string : Bool

abbrev scalar : ℕ → TypeTagInfo
scalar size = record { fixed_size = size; is_string = false }

abbrev string_info : TypeTagInfo
string_info = record { fixed_size = 0; is_string = true }

-- query_type_tag_info
unfoldable pub query_type_tag_info : TypeTag → TypeTagInfo
query_type_tag_info int8 = scalar 1
query_type_tag_info uint8 = scalar 1
query_type_tag_info bool = scalar 1
query_type_tag_info char = scalar 1
query_type_tag_info int16 = scalar 2
query_type_tag_info uint16 = scalar 2
query_type_tag_info int32 = scalar 4
query_type_tag_info uint32 = scalar 4
query_type_tag_info float = scalar 4
query_type_tag_info int64 = scalar 8
query_type_tag_info uint64 = scalar 8
query_type_tag_info double = scalar 8
query_type_tag_info c_string = string_info
query_type_tag_info string_view = string_info
query_type_tag_info std_string = string_info
query_type_tag_info user_defined = scalar 0
query_type_tag_info unknown = scalar 0
