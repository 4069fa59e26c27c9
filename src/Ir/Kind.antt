-- ===== src/Ir/Kind.antt =====
-- `enum class NodeKind` (include/rjit/ir/sea_of_nodes.hpp), its names, the control kinds
-- (src/ir/sea_of_nodes.cpp) and the kinds with side effects (src/optimizer/passes.cpp).
use Prim.Native.String.{String}
use r_sjit.Common.{ℕ, Bool, true, false, ◌==◌}

pub data NodeKind : Type 0 where
  start : NodeKind
  end : NodeKind
  region : NodeKind
  loop : NodeKind
  loop_exit : NodeKind
  if : NodeKind
  if_true : NodeKind
  if_false : NodeKind
  return : NodeKind
  tail_call : NodeKind
  deopt : NodeKind
  safepoint : NodeKind
  const_nil : NodeKind
  const_true : NodeKind
  const_false : NodeKind
  const_real : NodeKind
  const_int : NodeKind
  const_string : NodeKind
  load_var : NodeKind
  store_var : NodeKind
  load_env_slot : NodeKind
  store_env_slot : NodeKind
  load_env : NodeKind
  add : NodeKind
  sub : NodeKind
  mul : NodeKind
  div : NodeKind
  neg : NodeKind
  add_real : NodeKind
  sub_real : NodeKind
  mul_real : NodeKind
  div_real : NodeKind
  lt : NodeKind
  le : NodeKind
  gt : NodeKind
  ge : NodeKind
  eq : NodeKind
  ne : NodeKind
  lt_real : NodeKind
  le_real : NodeKind
  gt_real : NodeKind
  ge_real : NodeKind
  eq_real : NodeKind
  ne_real : NodeKind
  not : NodeKind
  and : NodeKind
  or : NodeKind
  call : NodeKind
  call_known : NodeKind
  allocate : NodeKind
  load_field : NodeKind
  store_field : NodeKind
  load_element : NodeKind
  store_element : NodeKind
  coerce : NodeKind
  is_type : NodeKind
  phi : NodeKind
  guard : NodeKind
  virtual_object : NodeKind
  materialize : NodeKind
  count : NodeKind

-- The underlying `uint16_t`.
unfoldable pub kind_code : NodeKind → ℕ
kind_code NodeKind.start = 0
kind_code NodeKind.end = 1
kind_code NodeKind.region = 2
kind_code NodeKind.loop = 3
kind_code NodeKind.loop_exit = 4
kind_code NodeKind.if = 5
kind_code NodeKind.if_true = 6
kind_code NodeKind.if_false = 7
kind_code NodeKind.return = 8
kind_code NodeKind.tail_call = 9
kind_code NodeKind.deopt = 10
kind_code NodeKind.safepoint = 11
kind_code NodeKind.const_nil = 12
kind_code NodeKind.const_true = 13
kind_code NodeKind.const_false = 14
kind_code NodeKind.const_real = 15
kind_code NodeKind.const_int = 16
kind_code NodeKind.const_string = 17
kind_code NodeKind.load_var = 18
kind_code NodeKind.store_var = 19
kind_code NodeKind.load_env_slot = 20
kind_code NodeKind.store_env_slot = 21
kind_code NodeKind.load_env = 22
kind_code NodeKind.add = 23
kind_code NodeKind.sub = 24
kind_code NodeKind.mul = 25
kind_code NodeKind.div = 26
kind_code NodeKind.neg = 27
kind_code NodeKind.add_real = 28
kind_code NodeKind.sub_real = 29
kind_code NodeKind.mul_real = 30
kind_code NodeKind.div_real = 31
kind_code NodeKind.lt = 32
kind_code NodeKind.le = 33
kind_code NodeKind.gt = 34
kind_code NodeKind.ge = 35
kind_code NodeKind.eq = 36
kind_code NodeKind.ne = 37
kind_code NodeKind.lt_real = 38
kind_code NodeKind.le_real = 39
kind_code NodeKind.gt_real = 40
kind_code NodeKind.ge_real = 41
kind_code NodeKind.eq_real = 42
kind_code NodeKind.ne_real = 43
kind_code NodeKind.not = 44
kind_code NodeKind.and = 45
kind_code NodeKind.or = 46
kind_code NodeKind.call = 47
kind_code NodeKind.call_known = 48
kind_code NodeKind.allocate = 49
kind_code NodeKind.load_field = 50
kind_code NodeKind.store_field = 51
kind_code NodeKind.load_element = 52
kind_code NodeKind.store_element = 53
kind_code NodeKind.coerce = 54
kind_code NodeKind.is_type = 55
kind_code NodeKind.phi = 56
kind_code NodeKind.guard = 57
kind_code NodeKind.virtual_object = 58
kind_code NodeKind.materialize = 59
kind_code NodeKind.count = 60

unfoldable pub node_kind_name : NodeKind → String
node_kind_name NodeKind.start = "Start"
node_kind_name NodeKind.end = "End"
node_kind_name NodeKind.region = "Region"
node_kind_name NodeKind.loop = "Loop"
node_kind_name NodeKind.loop_exit = "LoopExit"
node_kind_name NodeKind.if = "If"
node_kind_name NodeKind.if_true = "IfTrue"
node_kind_name NodeKind.if_false = "IfFalse"
node_kind_name NodeKind.return = "Return"
node_kind_name NodeKind.tail_call = "TailCall"
node_kind_name NodeKind.deopt = "Deopt"
node_kind_name NodeKind.safepoint = "Safepoint"
node_kind_name NodeKind.const_nil = "ConstNil"
node_kind_name NodeKind.const_true = "ConstTrue"
node_kind_name NodeKind.const_false = "ConstFalse"
node_kind_name NodeKind.const_real = "ConstReal"
node_kind_name NodeKind.const_int = "ConstInt"
node_kind_name NodeKind.const_string = "ConstString"
node_kind_name NodeKind.load_var = "LoadVar"
node_kind_name NodeKind.store_var = "StoreVar"
node_kind_name NodeKind.load_env_slot = "LoadEnvSlot"
node_kind_name NodeKind.store_env_slot = "StoreEnvSlot"
node_kind_name NodeKind.load_env = "LoadEnv"
node_kind_name NodeKind.add = "Add"
node_kind_name NodeKind.sub = "Sub"
node_kind_name NodeKind.mul = "Mul"
node_kind_name NodeKind.div = "Div"
node_kind_name NodeKind.neg = "Neg"
node_kind_name NodeKind.add_real = "AddReal"
node_kind_name NodeKind.sub_real = "SubReal"
node_kind_name NodeKind.mul_real = "MulReal"
node_kind_name NodeKind.div_real = "DivReal"
node_kind_name NodeKind.lt = "Lt"
node_kind_name NodeKind.le = "Le"
node_kind_name NodeKind.gt = "Gt"
node_kind_name NodeKind.ge = "Ge"
node_kind_name NodeKind.eq = "Eq"
node_kind_name NodeKind.ne = "Ne"
node_kind_name NodeKind.lt_real = "LtReal"
node_kind_name NodeKind.le_real = "LeReal"
node_kind_name NodeKind.gt_real = "GtReal"
node_kind_name NodeKind.ge_real = "GeReal"
node_kind_name NodeKind.eq_real = "EqReal"
node_kind_name NodeKind.ne_real = "NeReal"
node_kind_name NodeKind.not = "Not"
node_kind_name NodeKind.and = "And"
node_kind_name NodeKind.or = "Or"
node_kind_name NodeKind.call = "Call"
node_kind_name NodeKind.call_known = "CallKnown"
node_kind_name NodeKind.allocate = "Allocate"
node_kind_name NodeKind.load_field = "LoadField"
node_kind_name NodeKind.store_field = "StoreField"
node_kind_name NodeKind.load_element = "LoadElement"
node_kind_name NodeKind.store_element = "StoreElement"
node_kind_name NodeKind.coerce = "Coerce"
node_kind_name NodeKind.is_type = "IsType"
node_kind_name NodeKind.phi = "Phi"
node_kind_name NodeKind.guard = "Guard"
node_kind_name NodeKind.virtual_object = "VirtualObject"
node_kind_name NodeKind.materialize = "Materialize"
node_kind_name NodeKind.count = "?"

-- `Node::is_control`
unfoldable pub is_control : NodeKind → Bool
is_control NodeKind.start = true
is_control NodeKind.end = true
is_control NodeKind.region = true
is_control NodeKind.loop = true
is_control NodeKind.loop_exit = true
is_control NodeKind.if = true
is_control NodeKind.if_true = true
is_control NodeKind.if_false = true
is_control NodeKind.return = true
is_control NodeKind.tail_call = true
is_control NodeKind.deopt = true
is_control NodeKind.safepoint = true
is_control _ = false

unfoldable pub has_side_effects : NodeKind → Bool
has_side_effects NodeKind.store_var = true
has_side_effects NodeKind.store_env_slot = true
has_side_effects NodeKind.store_field = true
has_side_effects NodeKind.store_element = true
has_side_effects NodeKind.call = true
has_side_effects NodeKind.call_known = true
has_side_effects NodeKind.return = true
has_side_effects NodeKind.deopt = true
has_side_effects NodeKind.safepoint = true
has_side_effects NodeKind.tail_call = true
has_side_effects NodeKind.end = true
has_side_effects _ = false

unfoldable pub is_kind : NodeKind → NodeKind → Bool
is_kind a b = kind_code a == kind_code b
