-- ===== src/Value/Tag.antt =====
-- include/rjit/core/value.hpp: the type tags and their byte codes.
use r_sjit.Common.{ℕ, Bool, not, ◌&&◌, ◌||◌, leb, ◌==◌}

-- `enum class TypeTag`
pub data TypeTag : Type 0 where
  nil logical integer real string : TypeTag
  vector environment promise closure builtin special call symbol pair_list : TypeTag
  bytecode_fn jit_code external_ptr : TypeTag
  missing : TypeTag

unfoldable pub tag_code : TypeTag → ℕ
tag_code nil = 0x00
tag_code logical = 0x01
tag_code integer = 0x02
tag_code real = 0x03
tag_code string = 0x04
tag_code vector = 0x10
tag_code environment = 0x11
tag_code promise = 0x12
tag_code closure = 0x13
tag_code builtin = 0x14
tag_code special = 0x15
tag_code call = 0x16
tag_code symbol = 0x17
tag_code pair_list = 0x18
tag_code bytecode_fn = 0x19
tag_code jit_code = 0x1A
tag_code external_ptr = 0x1B
tag_code missing = 0xFF

unfoldable pub is_scalar_tag : TypeTag → Bool
unfolding tag_code
is_scalar_tag t = leb (tag_code nil) (tag_code t) && leb (tag_code t) (tag_code string)

unfoldable pub is_numeric_scalar_tag : TypeTag → Bool
unfolding tag_code
is_numeric_scalar_tag t =
    (tag_code t == tag_code real)
    || (tag_code t == tag_code integer)
    || (tag_code t == tag_code logical)

unfoldable pub is_heap_tag : TypeTag → Bool
unfolding is_scalar_tag tag_code
is_heap_tag t = not (is_scalar_tag t) && not (tag_code t == tag_code missing)
