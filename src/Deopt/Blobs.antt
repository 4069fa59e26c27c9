-- ===== src/Deopt/Blobs.antt =====
-- The entries of a blob (src/jit/deopt.cpp) are those that were added to it, if they were added before
-- the next blob was made.
use r_sjit.Common.{
  ℕ, zero, suc, ◌+◌, ◌%◌, ◌<◌, ◌≡◌, refl, ap, sym, ◌∙◌, List, [], ◌∷◌, ◌++◌, some, length,
  get_elem?, arith, u32_size, get_elem?-append_last, replicate,
}
use r_sjit.Value.{Value, nil}
use r_sjit.Deopt.{
  DeoptValue, DeoptBlob, DeoptContext, Frame, alloc_blob, add_value, one_more, count_value, fill,
  drop, take, blob_values, materialize, materialize_found,
}

-- `add_value` for each of a list.
unfoldable pub add_values : ℕ → List DeoptValue → DeoptContext → DeoptContext
add_values id [] c = c
add_values id (v ∷ vs) c = add_values id vs (add_value id v c)

append_assoc : (xs ys zs : List DeoptValue) → (xs ++ ys) ++ zs ≡ xs ++ (ys ++ zs)
append_assoc [] ys zs = refl
append_assoc (x ∷ xs) ys zs = ap (λ (ws : List DeoptValue). x ∷ ws) (append_assoc xs ys zs)

append_nil : (xs : List DeoptValue) → xs ++ [] ≡ xs
append_nil [] = refl
append_nil (x ∷ xs) = ap (λ (ws : List DeoptValue). x ∷ ws) (append_nil xs)

add_values-pool :
    (id : ℕ) (vs : List DeoptValue) (c : DeoptContext)
    → (add_values id vs c).value_pool ≡ c.value_pool ++ vs
unfolding add_values add_value
add_values-pool id [] c = sym (append_nil c.value_pool)
add_values-pool id (v ∷ vs) c =
    add_values-pool id vs (add_value id v c) ∙ append_assoc c.value_pool (v ∷ []) vs

abbrev counting : DeoptBlob → ℕ → DeoptBlob
counting b n = record b { num_values = n }

count_value-get :
    (i : ℕ) (bs : List DeoptBlob) (b : DeoptBlob)
    → get_elem? bs i ≡ some b
    → get_elem? (count_value i bs) i ≡ some (one_more b)
unfolding count_value
count_value-get i [] b h = ground arith
count_value-get zero (a ∷ bs) b h = ground (arith, λ (e : a ≡ b). ap one_more e)
count_value-get (suc i) (a ∷ bs) b h = count_value-get i bs b h

add_values-get :
    (id : ℕ) (vs : List DeoptValue) (c : DeoptContext) (b : DeoptBlob)
    → b.num_values + length vs < u32_size
    → get_elem? c.blobs id ≡ some b
    → get_elem? (add_values id vs c).blobs id ≡ some (counting b (b.num_values + length vs))
unfolding add_values add_value one_more
add_values-get id [] c b l h = h ∙ ap (λ (n : ℕ). some (counting b n)) (omega arith)
add_values-get id (v ∷ vs) c b l h =
    let size : suc b.num_values % u32_size ≡ suc b.num_values = omega (arith, l) in
    add_values-get id vs (add_value id v c) (one_more b) (omega (arith, size, l))
      (count_value-get id c.blobs b h)
    ∙ ap (λ (n : ℕ). some (counting b n)) (omega (arith, size))

drop-length : (xs ys : List DeoptValue) → drop (length xs) (xs ++ ys) ≡ ys
unfolding drop
drop-length [] ys = refl
drop-length (x ∷ xs) ys = drop-length xs ys

take-length : (xs : List DeoptValue) → take (length xs) xs ≡ xs
unfolding take
take-length [] = refl
take-length (x ∷ xs) = ap (λ (ws : List DeoptValue). x ∷ ws) (take-length xs)

-- The frame of a blob with the registers that the entries fill, from the function and the
-- environment as they are now.
unfoldable pub frame_of :
    (ℕ → ℕ) → (ℕ → ℕ → Value) → ℕ → ℕ → ℕ → List DeoptValue → List Value → Frame
frame_of nregs_of slot_get caller_fn caller_pc env vs inputs = record {
  fn = caller_fn;
  env = env;
  pc = suc caller_pc % u32_size;
  regs = fill (slot_get env) vs inputs (replicate (nregs_of caller_fn) nil);
  nregs = nregs_of caller_fn;
}

module _ (nregs_of : ℕ → ℕ) (slot_get : ℕ → ℕ → Value) where
  materialize-blob :
      (id : ℕ) (inputs : List Value) (c : DeoptContext) (b : DeoptBlob) (vs : List DeoptValue)
      → get_elem? c.blobs id ≡ some b
      → blob_values c b ≡ vs
      → materialize nregs_of slot_get id inputs c
        ≡ some (frame_of nregs_of slot_get b.caller_fn b.caller_pc b.env vs inputs)
  unfolding materialize materialize_found frame_of
  materialize-blob id inputs c b vs h e =
      ap (materialize_found nregs_of slot_get inputs c) h
      ∙ ap (λ ds. some (frame_of nregs_of slot_get b.caller_fn b.caller_pc b.env ds inputs)) e

  -- With room for 32-bit counts, materializing a new blob to which a list of entries was added
  -- gives the frame of its function and environment at the next instruction, whose registers, as
  -- many as the function has at that time, the entries fill in their order, from the constants,
  -- the inputs and the slots of the environment at that time.
  pub materialize-add_values :
      (caller_fn caller_pc caller_dst env : ℕ) (vs : List DeoptValue) (inputs : List Value)
      (c : DeoptContext)
      → length c.blobs < u32_size
      → length c.value_pool + length vs < u32_size
      → materialize nregs_of slot_get (alloc_blob caller_fn caller_pc caller_dst env c).0 inputs (
          add_values
            (alloc_blob caller_fn caller_pc caller_dst env c).0
            vs
            (alloc_blob caller_fn caller_pc caller_dst env c).1)
        ≡ some (frame_of nregs_of slot_get caller_fn caller_pc env vs inputs)
  unfolding alloc_blob blob_values
  materialize-add_values caller_fn caller_pc caller_dst env vs inputs c lb lp =
      let b : DeoptBlob = record {
        safepoint_id = length c.blobs % u32_size;
        caller_fn = caller_fn;
        caller_pc = caller_pc;
        caller_dst = caller_dst;
        env = env;
        num_values = 0;
        values_offset = length c.value_pool % u32_size;
      } in
      let id = length c.blobs % u32_size in
      let here : id ≡ length c.blobs = omega (arith, lb) in
      let start : length c.value_pool % u32_size ≡ length c.value_pool = omega (arith, lp) in
      let d : DeoptContext = record { blobs = c.blobs ++ b ∷ []; value_pool = c.value_pool } in
      materialize-blob id inputs (add_values id vs d) (counting b (0 + length vs)) vs
        (add_values-get id vs d b (omega (arith, lp))
          (ap (get_elem? (c.blobs ++ b ∷ [])) here ∙ get_elem?-append_last c.blobs b))
        (ap
            (λ (p : List DeoptValue).
              take (0 + length vs) (drop (length c.value_pool % u32_size) p))
            (add_values-pool id vs d)
          ∙ ap (λ (n : ℕ). take (0 + length vs) (drop n (c.value_pool ++ vs))) start
          ∙ ap (take (0 + length vs)) (drop-length c.value_pool vs)
          ∙ ap (λ (n : ℕ). take n vs) (omega arith)
          ∙ take-length vs)
