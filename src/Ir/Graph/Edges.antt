-- ===== src/Ir/Graph/Edges.antt =====
-- The edges of the graph (src/ir/sea_of_nodes.cpp) are kept on both sides: a node stands among the
-- outputs of another as often as it has that one as an input.
use r_sjit.Common.{ℕ, ◌≤◌, ◌≡◌, ◌≢◌, ap, ==_iff, List, [], Option, arith}
use r_sjit.Ir.Kind.{NodeKind}
use r_sjit.Ir.Graph.{
  Node, Graph, blank, put, with_outputs, fresh_node, new_node, drop_user, remove_node, redirect,
  redirect_users, replace_node,
}
use r_sjit.Ir.Graph.Uses.{
  count, count_input, add_user-outputs, add_user-inputs, drop_user-outputs, drop_user-inputs,
  count_input-redirect, redirect_users-outputs, redirect_users-inputs, put-outputs, put-inputs,
}

-- Both sides of every edge are kept.
abbrev pub IsMirrored : (ℕ → Node) → Type 0
IsMirrored h = (n u : ℕ) → count u (h n).outputs ≡ count_input n (h u).inputs

pub record IsValid (g : Graph) : Type 0 where
  pub mirrored : IsMirrored g.at
  pub fresh : (n : ℕ) → g.next_id ≤ n → g.at n ≡ blank

-- On a valid graph, after a node was replaced by a different one no node has the old one as an
-- input.
pub replace_node-no_uses :
    (o n u : ℕ) (g : Graph)
    → IsValid g
    → o ≢ n
    → count_input o ((replace_node o n g).at u).inputs ≡ 0
unfolding replace_node with_outputs
replace_node-no_uses o n u g v d =
    let h = redirect_users o n (g.at o).outputs g.at in
    ground (
      arith,
      put-inputs o u (with_outputs (h o) []) h,
      redirect_users-inputs o n (g.at o).outputs u g.at d,
      ==_iff o u,
      λ (e : o ≡ u). ap (λ (j : ℕ). (h j).inputs) e,
      v.mirrored o u,
      count_input-redirect o n o (g.at u).inputs d,
      λ (e : (h u).inputs ≡ redirect o n (g.at u).inputs). ap (count_input o) e,
      λ (e : (h u).inputs ≡ (g.at u).inputs). ap (count_input o) e,
    )

abbrev pub AllGiven : List (Option ℕ) → ℕ → Type 0
AllGiven is n = (i : ℕ) → n ≤ i → count_input i is ≡ 0

pub new_node-IsMirrored :
    (k : NodeKind) (is : List (Option ℕ)) (g : Graph)
    → IsValid g
    → AllGiven is g.next_id
    → IsMirrored (new_node k is g).at
unfolding new_node fresh_node count count_input
new_node-IsMirrored k is g v old n u =
    let h = put g.next_id (fresh_node k is) g.at in
    ground (
      arith,
      add_user-outputs is g.next_id n u h,
      ap (count_input n) (add_user-inputs is g.next_id u h),
      ap (count u) (put-outputs g.next_id n (fresh_node k is) g.at),
      ap (count_input n) (put-inputs g.next_id u (fresh_node k is) g.at),
      v.mirrored n u,
      ==_iff g.next_id n,
      ==_iff g.next_id u,
      λ (l : g.next_id ≤ n). old n l,
      λ (e : g.next_id ≡ n). ap (λ (m : ℕ). count u (g.at m).outputs) e,
      λ (e : g.next_id ≡ u). ap (λ (m : ℕ). count_input n (g.at m).inputs) e,
      ap (λ (x : Node). count u x.outputs) (v.fresh g.next_id (omega arith)),
      ap (λ (x : Node). count_input n x.inputs) (v.fresh g.next_id (omega arith)),
    )

-- A node that nobody uses is removed with its edges.
pub remove_node-IsMirrored :
    (r : ℕ) (g : Graph) → IsValid g → (g.at r).outputs ≡ [] → IsMirrored (remove_node r g).at
unfolding remove_node count count_input
remove_node-IsMirrored r g v unused n u =
    let h = drop_user (g.at r).inputs r g.at in
    ground (
      arith,
      ap (count u) (put-outputs r n blank h),
      ap (count_input n) (put-inputs r u blank h),
      drop_user-outputs (g.at r).inputs r n u g.at,
      ap (count_input n) (drop_user-inputs (g.at r).inputs r u g.at),
      v.mirrored n u,
      v.mirrored n r,
      v.mirrored r u,
      ap (count u) unused,
      ==_iff r n,
      ==_iff r u,
      λ (e : r ≡ n). ap (λ (m : ℕ). count_input m (g.at u).inputs) e,
      λ (e : r ≡ u). ap (λ (m : ℕ). count m (g.at n).outputs) e,
    )

pub replace_node-IsMirrored :
    (o n : ℕ) (g : Graph) → IsValid g → o ≢ n → IsMirrored (replace_node o n g).at
unfolding replace_node with_outputs count
replace_node-IsMirrored o n g v d m u =
    let h = redirect_users o n (g.at o).outputs g.at in
    ground (
      arith,
      ap (count u) (put-outputs o m (with_outputs (h o) []) h),
      ap (count_input m) (put-inputs o u (with_outputs (h o) []) h),
      redirect_users-outputs o n (g.at o).outputs m u g.at,
      redirect_users-inputs o n (g.at o).outputs u g.at d,
      count_input-redirect o n m (g.at u).inputs d,
      v.mirrored m u,
      v.mirrored o u,
      v.mirrored n u,
      ==_iff o m,
      ==_iff n m,
      ==_iff o u,
      ==_iff m o,
      ==_iff m n,
      λ (e : o ≡ u). ap (λ (j : ℕ). count_input m (h j).inputs) e,
      λ (e : (h u).inputs ≡ redirect o n (g.at u).inputs). ap (count_input m) e,
      λ (e : (h u).inputs ≡ (g.at u).inputs). ap (count_input m) e,
      λ (e : n ≡ m). ap (λ (j : ℕ). count_input j (g.at u).inputs) e,
    )
