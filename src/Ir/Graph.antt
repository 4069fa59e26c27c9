-- ===== src/Ir/Graph.antt =====
-- src/ir/sea_of_nodes.cpp, include/rjit/ir/sea_of_nodes.hpp: the nodes and the operations of the
-- graph. A freed node is blank. The flags `visited` and `in_worklist` have no reader.
use r_sjit.Common.{
  ℕ, zero, suc, ◌+◌, ◌%◌, ◌≡◌, Bool, true, false, not, ◌==◌, List, [], ◌∷◌, ◌++◌, Option, none,
  some, if◌then◌else◌, length, get_elem?, set, u32_size, ltb,
}
use r_sjit.Value.{Value, nil}
use r_sjit.Ir.Kind.{NodeKind}
use r_sjit.Ir.Types.{NodeType, top_type}
pub mod Uses
pub mod Edges
pub mod Fresh

-- `class Node`; a null pointer is `none`.
pub record Node : Type 0 where
  pub kind : NodeKind
  pub type : NodeType
  pub inputs : List (Option ℕ)
  pub outputs : List ℕ
  pub k : ℕ
  pub constant : Value

abbrev pub blank : Node
blank = record {
  kind = NodeKind.start;
  type = top_type;
  inputs = [];
  outputs = [];
  k = 0;
  constant = nil;
}

-- `class Graph`
pub record Graph : Type 0 where
  pub nodes : List ℕ
  pub at : ℕ → Node
  pub next_id : ℕ

unfoldable pub put : ℕ → Node → (ℕ → Node) → ℕ → Node
put n v h m = if n == m then v else h m

unfoldable pub with_outputs : Node → List ℕ → Node
with_outputs n outs = record {
  kind = n.kind;
  type = n.type;
  inputs = n.inputs;
  outputs = outs;
  k = n.k;
  constant = n.constant;
}

unfoldable pub with_inputs : Node → List (Option ℕ) → Node
with_inputs n ins = record {
  kind = n.kind;
  type = n.type;
  inputs = ins;
  outputs = n.outputs;
  k = n.k;
  constant = n.constant;
}

-- `outputs.push_back(n)` of the node `i`.
unfoldable pub push_output : ℕ → ℕ → (ℕ → Node) → ℕ → Node
push_output i n h = put i (with_outputs (h i) ((h i).outputs ++ n ∷ [])) h

-- The loop of `new_node` on the inputs.
unfoldable pub add_user : List (Option ℕ) → ℕ → (ℕ → Node) → ℕ → Node
add_user [] n h = h
add_user (none ∷ is) n h = add_user is n h
add_user (some i ∷ is) n h = add_user is n (push_output i n h)

unfoldable pub fresh_node : NodeKind → List (Option ℕ) → Node
fresh_node kind inputs = record {
  kind = kind;
  type = top_type;
  inputs = inputs;
  outputs = [];
  k = 0;
  constant = nil;
}

-- The node has the id `g.next_id`.
unfoldable pub new_node : NodeKind → List (Option ℕ) → Graph → Graph
new_node kind inputs g = record {
  nodes = g.nodes ++ g.next_id ∷ [];
  at = add_user inputs g.next_id (put g.next_id (fresh_node kind inputs) g.at);
  next_id = suc g.next_id % u32_size;
}

-- `erase(remove(begin, end, n), end)`
unfoldable pub without : ℕ → List ℕ → List ℕ
without n [] = []
without n (m ∷ ms) = let rest = without n ms in if m == n then rest else m ∷ rest

unfoldable pub drop_output : ℕ → ℕ → (ℕ → Node) → ℕ → Node
drop_output i n h = put i (with_outputs (h i) (without n (h i).outputs)) h

-- The loop of `remove_node` on the inputs.
unfoldable pub drop_user : List (Option ℕ) → ℕ → (ℕ → Node) → ℕ → Node
drop_user [] n h = h
drop_user (none ∷ is) n h = drop_user is n h
drop_user (some i ∷ is) n h = drop_user is n (drop_output i n h)

-- The freed node is blank. The source must not use it again, and no operation here gives its id out
-- again.
unfoldable pub remove_node : ℕ → Graph → Graph
remove_node n g = record {
  nodes = without n g.nodes;
  at = put n blank (drop_user (g.at n).inputs n g.at);
  next_id = g.next_id;
}

unfoldable pub redirect : ℕ → ℕ → List (Option ℕ) → List (Option ℕ)
redirect old_n new_n [] = []
redirect old_n new_n (none ∷ is) = none ∷ redirect old_n new_n is
redirect old_n new_n (some i ∷ is) =
    some (if i == old_n then new_n else i) ∷ redirect old_n new_n is

-- One round of the loop of `replace_node`.
unfoldable pub redirect_user : ℕ → ℕ → ℕ → (ℕ → Node) → ℕ → Node
redirect_user old_n new_n user h =
    push_output new_n user
      (put user (with_inputs (h user) (redirect old_n new_n (h user).inputs)) h)

unfoldable pub redirect_users : ℕ → ℕ → List ℕ → (ℕ → Node) → ℕ → Node
redirect_users old_n new_n [] h = h
redirect_users old_n new_n (user ∷ users) h =
    redirect_users old_n new_n users (redirect_user old_n new_n user h)

-- For two different nodes: with `new_n` the same as `old_n` the loop writes the vector it runs over.
unfoldable pub replace_node : ℕ → ℕ → Graph → Graph
replace_node old_n new_n g =
    let h = redirect_users old_n new_n (g.at old_n).outputs g.at in
    record { nodes = g.nodes; at = put old_n (with_outputs (h old_n) []) h; next_id = g.next_id }

-- The part of `replace_input` that leaves the old input.
unfoldable pub leave : Option ℕ → ℕ → (ℕ → Node) → ℕ → Node
leave none n h = h
leave (some old) n h = drop_output old n h

-- The part of `replace_input` that enters the new input.
unfoldable pub enter : Option ℕ → ℕ → (ℕ → Node) → ℕ → Node
enter none n h = h
enter (some i) n h = push_output i n h

unfoldable pub replace_input : ℕ → ℕ → Option ℕ → Graph → Graph
replace_input n idx new_input g = elim (get_elem? (g.at n).inputs idx) [
  | none ↦ g
  | some old ↦
      let h = leave old n g.at in
      let h2 = put n (with_inputs (h n) (set (h n).inputs idx new_input)) h in
      record { nodes = g.nodes; at = enter new_input n h2; next_id = g.next_id }
]

-- `Graph::Graph`
unfoldable pub empty_graph : Graph
unfolding new_node
empty_graph =
    new_node NodeKind.end []
      (new_node NodeKind.start [] (record { nodes = []; at = λ _. blank; next_id = 0 }))
