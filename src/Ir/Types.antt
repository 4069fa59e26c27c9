-- ===== src/Ir/Types.antt =====
-- src/ir/types.cpp, include/rjit/ir/types.hpp: the lattice of the types of the nodes.
use r_sjit.Common.{ℕ, ◌≡◌, Bool, ◌||◌, ◌==◌, u32_max, if◌then◌else◌, arith}
use r_sjit.Value.Tag.{TypeTag}

-- `Type::Kind`
pub data TypeKind : Type 0 where
  top bottom nil logical_scalar integer_scalar real_scalar string_scalar : TypeKind
  vector environment closure promise builtin : TypeKind

unfoldable pub kind_index : TypeKind → ℕ
kind_index TypeKind.top = 0
kind_index TypeKind.bottom = 1
kind_index TypeKind.nil = 2
kind_index TypeKind.logical_scalar = 3
kind_index TypeKind.integer_scalar = 4
kind_index TypeKind.real_scalar = 5
kind_index TypeKind.string_scalar = 6
kind_index TypeKind.vector = 7
kind_index TypeKind.environment = 8
kind_index TypeKind.closure = 9
kind_index TypeKind.promise = 10
kind_index TypeKind.builtin = 11

-- `class Type`
pub record NodeType : Type 0 where
  pub kind : TypeKind
  pub element_tag : TypeTag
  pub shape_id : ℕ
  pub min_length : ℕ
  pub max_length : ℕ

unfoldable pub top_type : NodeType
top_type = record {
  kind = TypeKind.top;
  element_tag = TypeTag.nil;
  shape_id = 0;
  min_length = 0;
  max_length = u32_max;
}

unfoldable pub bottom_type : NodeType
bottom_type = record {
  kind = TypeKind.bottom;
  element_tag = TypeTag.nil;
  shape_id = 0;
  min_length = 0;
  max_length = u32_max;
}

unfoldable pub is_top : NodeType → Bool
unfolding kind_index
is_top t = kind_index t.kind == kind_index TypeKind.top

unfoldable pub is_bottom : NodeType → Bool
unfolding kind_index
is_bottom t = kind_index t.kind == kind_index TypeKind.bottom

-- `*this` with `shape_id = 0`, that is "any environment".
unfoldable pub any_shape : NodeType → NodeType
any_shape t = record {
  kind = t.kind;
  element_tag = t.element_tag;
  shape_id = 0;
  min_length = t.min_length;
  max_length = t.max_length;
}

unfoldable pub meet : NodeType → NodeType → NodeType
unfolding is_top is_bottom kind_index
meet s t =
    if is_top s
    then t
    else if is_top t
    then s
    else if is_bottom s || is_bottom t
    then bottom_type
    else if kind_index s.kind == kind_index t.kind
    then (if kind_index s.kind == kind_index TypeKind.environment
        then (if s.shape_id == t.shape_id then s else any_shape s)
        else s)
    else bottom_type

unfoldable pub join : NodeType → NodeType → NodeType
unfolding is_top is_bottom kind_index
join s t =
    if is_bottom s
    then t
    else if is_bottom t
    then s
    else if is_top s || is_top t
    then top_type
    else if kind_index s.kind == kind_index t.kind
    then s
    else top_type

-- The kind and the shape, where the shape means something: what `meet` and `join` look at.
pub record SameView (s t : NodeType) : Type 0 where
  pub same_kind : kind_index s.kind ≡ kind_index t.kind
  pub same_shape : kind_index s.kind ≡ 8 → s.shape_id ≡ t.shape_id

-- The two orders of a meet give the same kind, and the same shape if that is the kind of
-- environments.
pub meet_comm : (s t : NodeType) → SameView (meet s t) (meet t s)
unfolding meet is_top is_bottom kind_index any_shape bottom_type
meet_comm s t = record { same_kind = ground arith; same_shape = ground arith }

pub join_comm : (s t : NodeType) → kind_index (join s t).kind ≡ kind_index (join t s).kind
unfolding join is_top is_bottom kind_index top_type
join_comm s t = ground arith
