-- ===== src/Bytecode.antt =====
-- include/rjit/bytecode/opcodes.hpp: the opcodes and the instruction.
use r_sjit.Common.{ℕ}

-- `enum class Op`
pub data Op : Type 0 where
  nop halt jump jump_if_false jump_if_true jump_if_na : Op
  load_nil load_true load_false load_na load_real load_int load_string : Op
  load_var store_var store_super load_local store_local rm_var : Op
  add sub mul div pow mod_op neg : Op
  add_real_real add_int_int add_real_int add_int_real : Op
  add_scalar_vec add_vec_scalar add_vec_vec : Op
  sub_real_real sub_int_int mul_real_real mul_int_int div_real_real div_int_int : Op
  lt le gt ge eq ne : Op
  lt_real_real le_real_real gt_real_real ge_real_real eq_real_real ne_real_real : Op
  lt_int_int le_int_int gt_int_int ge_int_int eq_int_int ne_int_int : Op
  and_op or_op not_op and_scalar or_scalar : Op
  call call_named call_builtin call_closure return return_null : Op
  make_promise force_promise : Op
  make_vector make_seq vector_length index index2 index_named : Op
  index_assign index2_assign index_named_assign subset : Op
  coerce_real coerce_int coerce_logical : Op
  type_of is_na : Op
  new_env get_env : Op
  make_closure : Op
  guard_type guard_shape guard_len deopt : Op
  ic_load_var ic_call : Op
  loop_header loop_backedge : Op
  print dump : Op

-- `struct Instr`
pub record Instr : Type 0 where
  pub op : Op
  pub flags : ℕ
  pub rdest : ℕ
  pub ra : ℕ
  pub rb : ℕ
  pub k : ℕ

-- `Instr()`
abbrev pub no_instr : Instr
no_instr = record { op = Op.nop; flags = 0; rdest = 0; ra = 0; rb = 0; k = 0 }
