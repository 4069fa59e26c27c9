-- ===== src/Ir/Tests.antt =====
-- The graph and its passes (src/ir, src/optimizer) at concrete inputs.
use r_sjit.Common.{ℕ, ◌≡◌, refl, [], ◌∷◌, some, arith, false}
use r_sjit.Common.Maps.{nat_key}
use r_sjit.Value.{real}
use r_sjit.Ir.Kind.{NodeKind}
use r_sjit.Ir.Types.{NodeType, TypeKind, top_type}
use r_sjit.Ir.Graph.{
  Graph, blank, new_node, fresh_node, remove_node, replace_node, empty_graph, put, add_user,
  push_output, with_outputs,
}
use r_sjit.Ir.Graph.Uses.{count, count_input}
use r_sjit.Ir.Graph.Edges.{IsValid, AllGiven, replace_node-no_uses}
use r_sjit.Ir.Graph.Fresh.{new_node-IsValid, remove_node-IsValid, replace_node-IsValid}
use r_sjit.Ir.Passes.{NumberState, with_constant, dce}
use r_sjit.Ir.Passes.Dce.{IsDistinct}
use r_sjit.Ir.Passes.Dead.{Runs, dce-Runs}

abbrev real_type : NodeType
real_type = record top_type { kind = TypeKind.real_scalar }

abbrev no_nodes : Graph
no_nodes = record { nodes = []; at = λ n. blank; next_id = 0 }

no_nodes-IsValid : IsValid no_nodes
unfolding count count_input
no_nodes-IsValid = record { mirrored = λ n u. refl; fresh = λ n l. refl }

no_inputs : (n : ℕ) → AllGiven [] n
unfolding count_input
no_inputs n i l = refl

start-IsValid : IsValid (new_node NodeKind.start [] no_nodes)
start-IsValid =
    new_node-IsValid NodeKind.start [] no_nodes no_nodes-IsValid (no_inputs 0) (omega arith)

empty-IsValid : IsValid empty_graph
unfolding empty_graph new_node
empty-IsValid =
    new_node-IsValid NodeKind.end [] (new_node NodeKind.start [] no_nodes) start-IsValid
      (no_inputs 1) (omega arith)

-- A node with the start as its input.
abbrev three : Graph
three = new_node NodeKind.neg (some 0 ∷ []) empty_graph

start_given : AllGiven (some 0 ∷ []) 2
unfolding count_input
start_given i l = ground arith

new_node-IsValid_example : IsValid (new_node NodeKind.neg (some 0 ∷ []) empty_graph)
unfolding empty_graph new_node
new_node-IsValid_example =
    new_node-IsValid NodeKind.neg (some 0 ∷ []) empty_graph empty-IsValid start_given (omega arith)

remove_node-IsValid_example : IsValid (remove_node 2 three)
unfolding empty_graph new_node fresh_node add_user push_output put with_outputs
remove_node-IsValid_example =
    remove_node-IsValid 2 three new_node-IsValid_example (omega arith) refl

replace_node-IsValid_example : IsValid (replace_node 0 1 three)
unfolding empty_graph new_node
replace_node-IsValid_example =
    replace_node-IsValid 0 1 three new_node-IsValid_example (omega arith) (omega arith)
      (omega arith)

replace_node-no_uses_example : count_input 0 ((replace_node 0 1 three).at 2).inputs ≡ 0
replace_node-no_uses_example =
    replace_node-no_uses 0 1 2 three new_node-IsValid_example (omega arith)

three-IsDistinct : IsDistinct three.nodes
unfolding empty_graph new_node count
three-IsDistinct m = ground arith

dce-Runs_example : Runs three (dce three)
dce-Runs_example = dce-Runs three new_node-IsValid_example three-IsDistinct

-- Two real constants.
abbrev two_constants : Graph
two_constants = record {
  nodes = 0 ∷ 1 ∷ [];
  at = λ n. with_constant (real n) (fresh_node NodeKind.const_real []);
  next_id = 2;
}

abbrev first_state : NumberState
first_state = record { graph = two_constants; seen = []; changed = false }
