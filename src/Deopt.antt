-- ===== src/Deopt.antt =====
-- src/jit/deopt.cpp, include/rjit/jit/deopt.hpp: the deoptimization blobs and the frame made from one.
--
-- The function and the environment of a blob are pointers, here numbers. What they hold when a frame is
-- materialized is given then: `nregs_of` is the number of registers of a function, and `slot_get` the
-- content of a slot of an environment.
pub mod Blobs
mod Tests
use r_sjit.Common.{
  ℕ, zero, suc, ◌+◌, ◌-◌, ◌%◌, Bool, true, false, ◌==◌, List, [], ◌∷◌, ◌++◌, Option, none, some,
  if◌then◌else◌, length, get_elem?, get_or, set, ltb, u32_size, replicate,
}
use r_sjit.Value.{Value, nil}

-- `enum class DeoptValueKind`
pub data DeoptValueKind : Type 0 where
  constant register stack_slot env_slot pending : DeoptValueKind

-- `struct DeoptValue`, without the two fields that `materialize` does not read.
pub record DeoptValue : Type 0 where
  pub kind : DeoptValueKind
  pub env_slot : ℕ
  pub constant_value : Value

-- `struct DeoptBlob`
pub record DeoptBlob : Type 0 where
  pub safepoint_id : ℕ
  pub caller_fn : ℕ
  pub caller_pc : ℕ
  pub caller_dst : ℕ
  pub env : ℕ
  pub num_values : ℕ
  pub values_offset : ℕ

-- `class DeoptContext`
pub record DeoptContext : Type 0 where
  pub blobs : List DeoptBlob
  pub value_pool : List DeoptValue

-- The safepoint id, and the context with the blob.
unfoldable pub alloc_blob : ℕ → ℕ → ℕ → ℕ → DeoptContext → ℕ × DeoptContext
alloc_blob caller_fn caller_pc caller_dst env c =
    let b : DeoptBlob = record {
      safepoint_id = length c.blobs % u32_size;
      caller_fn = caller_fn;
      caller_pc = caller_pc;
      caller_dst = caller_dst;
      env = env;
      num_values = 0;
      values_offset = length c.value_pool % u32_size;
    } in
    (length c.blobs % u32_size, record { blobs = c.blobs ++ b ∷ []; value_pool = c.value_pool })

unfoldable pub one_more : DeoptBlob → DeoptBlob
one_more b = record b { num_values = suc b.num_values % u32_size }

-- `num_values++` of a blob that there is.
unfoldable pub count_value : ℕ → List DeoptBlob → List DeoptBlob
count_value i [] = []
count_value zero (b ∷ bs) = one_more b ∷ bs
count_value (suc i) (b ∷ bs) = b ∷ count_value i bs

unfoldable pub add_value : ℕ → DeoptValue → DeoptContext → DeoptContext
add_value safepoint_id v c = record {
  blobs = count_value safepoint_id c.blobs;
  value_pool = c.value_pool ++ v ∷ [];
}

-- The value of an entry, and the inputs that are left. An input that is not there is nil.
unfoldable pub source_value : (ℕ → Value) → DeoptValue → List Value → Value × List Value
source_value slot_of d inputs = elim d.kind [
  | DeoptValueKind.constant ↦ (d.constant_value, inputs)
  | DeoptValueKind.register ↦ elim inputs [ [] ↦ (nil, []) | v ∷ vs ↦ (v, vs) ]
  | DeoptValueKind.stack_slot ↦ elim inputs [ [] ↦ (nil, []) | v ∷ vs ↦ (v, vs) ]
  | DeoptValueKind.env_slot ↦ (slot_of d.env_slot, inputs)
  | DeoptValueKind.pending ↦ (nil, inputs)
]

-- The loop of `materialize` on the entries of the blob: a target that is no register is left out, as `set`
-- does out of bounds.
unfoldable pub fill : (ℕ → Value) → List DeoptValue → List Value → List Value → List Value
fill slot_of [] inputs regs = regs
fill slot_of (d ∷ ds) inputs regs =
    let r = source_value slot_of d inputs in fill slot_of ds r.1 (set regs d.env_slot r.0)

-- The frame that `materialize` gives, whose other fields are constants.
pub record Frame : Type 0 where
  pub fn : ℕ
  pub env : ℕ
  pub pc : ℕ
  pub regs : List Value
  pub nregs : ℕ

unfoldable pub drop : ℕ → List DeoptValue → List DeoptValue
drop zero ds = ds
drop (suc n) [] = []
drop (suc n) (d ∷ ds) = drop n ds

unfoldable pub take : ℕ → List DeoptValue → List DeoptValue
take zero ds = []
take (suc n) [] = []
take (suc n) (d ∷ ds) = d ∷ take n ds

-- The entries of a blob are a part of the pool; the source does not test that they are within it.
unfoldable pub blob_values : DeoptContext → DeoptBlob → List DeoptValue
blob_values c b = take b.num_values (drop b.values_offset c.value_pool)

module _ (nregs_of : ℕ → ℕ) (slot_get : ℕ → ℕ → Value) where
  unfoldable pub materialize_found : List Value → DeoptContext → Option DeoptBlob → Option Frame
  unfolding fill blob_values nil
  materialize_found inputs c none = none
  materialize_found inputs c (some b) = some (record {
    fn = b.caller_fn;
    env = b.env;
    pc = suc b.caller_pc % u32_size;
    regs = fill (slot_get b.env) (blob_values c b) inputs (replicate (nregs_of b.caller_fn) nil);
    nregs = nregs_of b.caller_fn;
  })

  -- A null frame, `none`, for an id without a blob.
  unfoldable pub materialize : ℕ → List Value → DeoptContext → Option Frame
  unfolding materialize_found
  materialize safepoint_id inputs c = materialize_found inputs c (get_elem? c.blobs safepoint_id)
