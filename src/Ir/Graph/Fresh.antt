-- ===== src/Ir/Graph/Fresh.antt =====
-- The operations of the graph (src/ir/sea_of_nodes.cpp) leave the ids that are not given yet alone,
-- so that they keep the graph valid.
use r_sjit.Common.{
  ℕ, suc, ◌<◌, ◌≡◌, ◌≢◌, refl, ap, sym, ◌∙◌, ==_iff, List, [], ◌∷◌, Option, none, some, u32_size,
  arith, ◌++◌,
}
use r_sjit.Ir.Kind.{NodeKind}
use r_sjit.Ir.Graph.{
  Node, Graph, blank, put, with_outputs, with_inputs, push_output, drop_output, add_user,
  fresh_node, new_node, drop_user, remove_node, redirect, redirect_user, redirect_users,
  replace_node, without,
}
use r_sjit.Ir.Graph.Uses.{count, count_input}
use r_sjit.Ir.Graph.Edges.{
  IsValid, AllGiven, new_node-IsMirrored, remove_node-IsMirrored, replace_node-IsMirrored,
}

put_ne : (n m : ℕ) (v : Node) (h : ℕ → Node) → n ≢ m → put n v h m ≡ h m
unfolding put
put_ne n m v h d = ground (arith, ==_iff n m)

add_user_ne :
    (is : List (Option ℕ)) (n m : ℕ) (h : ℕ → Node) → count_input m is ≡ 0 → add_user is n h m ≡ h m
unfolding add_user push_output count_input
add_user_ne [] n m h none_of = refl
add_user_ne (none ∷ is) n m h none_of = add_user_ne is n m h none_of
add_user_ne (some i ∷ is) n m h none_of =
    add_user_ne is n m (push_output i n h) (ground arith)
    ∙ put_ne i m (with_outputs (h i) ((h i).outputs ++ n ∷ [])) h (ground (arith, ==_iff i m))

drop_user_ne :
    (is : List (Option ℕ)) (n m : ℕ) (h : ℕ → Node)
    → count_input m is ≡ 0
    → drop_user is n h m ≡ h m
unfolding drop_user drop_output count_input
drop_user_ne [] n m h none_of = refl
drop_user_ne (none ∷ is) n m h none_of = drop_user_ne is n m h none_of
drop_user_ne (some i ∷ is) n m h none_of =
    drop_user_ne is n m (drop_output i n h) (ground arith)
    ∙ put_ne i m (with_outputs (h i) (without n (h i).outputs)) h (ground (arith, ==_iff i m))

redirect_users_ne :
    (o n : ℕ) (users : List ℕ) (m : ℕ) (h : ℕ → Node)
    → n ≢ m
    → count m users ≡ 0
    → redirect_users o n users h m ≡ h m
unfolding redirect_users redirect_user push_output count
redirect_users_ne o n [] m h d none_of = refl
redirect_users_ne o n (user ∷ users) m h d none_of =
    let changed = put user (with_inputs (h user) (redirect o n (h user).inputs)) h in
    redirect_users_ne o n users m (redirect_user o n user h) d (ground arith)
    ∙ put_ne n m (with_outputs (changed n) ((changed n).outputs ++ user ∷ [])) changed d
    ∙ put_ne user m (with_inputs (h user) (redirect o n (h user).inputs)) h
        (ground (arith, ==_iff user m))

-- On a valid graph with an id left, a new node whose inputs are ids that were given makes a valid
-- graph.
pub new_node-IsValid :
    (k : NodeKind) (is : List (Option ℕ)) (g : Graph)
    → IsValid g
    → AllGiven is g.next_id
    → suc g.next_id < u32_size
    → IsValid (new_node k is g)
unfolding new_node
new_node-IsValid k is g v old room = record {
  mirrored = new_node-IsMirrored k is g v old;
  fresh = λ n l.
      add_user_ne is g.next_id n (put g.next_id (fresh_node k is) g.at) (old n (omega arith))
      ∙ put_ne g.next_id n (fresh_node k is) g.at (omega arith)
      ∙ v.fresh n (omega arith);
}

-- On a valid graph, removing a node whose id was given and that has no users gives a valid graph.
pub remove_node-IsValid :
    (r : ℕ) (g : Graph)
    → IsValid g
    → r < g.next_id
    → (g.at r).outputs ≡ []
    → IsValid (remove_node r g)
unfolding remove_node count count_input
remove_node-IsValid r g v given unused = record {
  mirrored = remove_node-IsMirrored r g v unused;
  fresh = λ n l.
      put_ne r n blank (drop_user (g.at r).inputs r g.at) (omega arith)
      ∙ drop_user_ne (g.at r).inputs r n g.at
          (sym (v.mirrored n r) ∙ ap (λ (x : Node). count r x.outputs) (v.fresh n l))
      ∙ v.fresh n l;
}

-- On a valid graph, replacing a node by a different node, both with ids that were given, gives a
-- valid graph.
pub replace_node-IsValid :
    (o n : ℕ) (g : Graph)
    → IsValid g
    → o < g.next_id
    → n < g.next_id
    → o ≢ n
    → IsValid (replace_node o n g)
unfolding replace_node count_input
replace_node-IsValid o n g v old_given new_given d = record {
  mirrored = replace_node-IsMirrored o n g v d;
  fresh = λ m l.
      let h = redirect_users o n (g.at o).outputs g.at in
      put_ne o m (with_outputs (h o) []) h (omega arith)
      ∙ redirect_users_ne o n (g.at o).outputs m g.at (omega arith)
          (v.mirrored o m ∙ ap (λ (x : Node). count_input o x.inputs) (v.fresh m l))
      ∙ v.fresh m l;
}
