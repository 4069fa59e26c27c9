-- ===== src/Ir/Passes.antt =====
-- src/optimizer/passes.cpp, src/optimizer/escape.cpp, src/optimizer/pea.cpp: the passes over the graph.
--
-- A pass that runs over the nodes and makes new ones runs over the nodes that were there when it
-- began: the source grows the vector that it iterates over, whose effect C++ leaves open.
pub mod Dce
pub mod Dead
pub mod Numbering
use r_sjit.Common.{
  ℕ, zero, suc, ◌+◌, ◌*◌, ◌%◌, ◌≡◌, Bool, true, false, not, ◌&&◌, ◌||◌, ◌==◌, List, [], ◌∷◌, Option,
  none, some, if◌then◌else◌, get_elem?, u64_size, any, length, ltb, leb,
}
use r_sjit.Common.Maps.{lookup, insert, nat_key}
use r_sjit.Value.{Value, Float, real, as_real}
use r_sjit.Ir.Kind.{NodeKind, kind_code, is_kind, is_control, has_side_effects}
use r_sjit.Ir.Graph.{Node, Graph, put, new_node, remove_node, replace_node}

-- The nodes that `dce` leaves alone.
unfoldable pub is_root : NodeKind → Bool
is_root k = is_kind k NodeKind.start || is_kind k NodeKind.end || has_side_effects k

unfoldable pub is_empty : List ℕ → Bool
is_empty [] = true
is_empty (n ∷ ns) = false

unfoldable pub is_dead : Node → Bool
is_dead n = not (is_root n.kind) && is_empty n.outputs

-- The inner loop of `dce` on the nodes from its index on: a removal leaves the index where it is, and
-- the ids are different, so that the nodes behind it are the next ones. The flag is `changed`.
unfoldable pub sweep : List ℕ → Graph → Bool → Graph × Bool
sweep [] g changed = (g, changed)
sweep (n ∷ ns) g changed =
    if is_dead (g.at n) then sweep ns (remove_node n g) true else sweep ns g changed

unfoldable pub dce_continue :
    (Graph → Bool → Option (Graph × Bool)) → Graph × Bool → Bool → Option (Graph × Bool)
dce_continue again (g, true) any = again g true
dce_continue again (g, false) any = some (g, any)

-- The outer loop, with fuel, and `any`.
unfoldable pub dce_loop : ℕ → Graph → Bool → Option (Graph × Bool)
dce_loop zero g any = none
dce_loop (suc fuel) g any = dce_continue (λ h b. dce_loop fuel h b) (sweep g.nodes g false) any

-- `dce`: a round more than there are nodes.
unfoldable pub dce : Graph → Option (Graph × Bool)
dce g = dce_loop (suc (length g.nodes)) g false

-- The hash of the input ids in `gvn`, a `uint64_t`; a null pointer counts as 0.
unfoldable pub hash_inputs : List (Option ℕ) → ℕ → ℕ
hash_inputs [] h = h
hash_inputs (none ∷ is) h = hash_inputs is (h * 131 % u64_size)
hash_inputs (some i ∷ is) h = hash_inputs is ((h * 131 + i) % u64_size)

unfoldable pub node_hash : Node → ℕ
node_hash n = hash_inputs n.inputs ((kind_code n.kind * 31 + n.k) % u64_size)

unfoldable pub is_numbered : NodeKind → Bool
is_numbered k = not (has_side_effects k) && not (is_control k)

-- The state of `gvn` in its loop: the graph, `seen` and `any`.
pub record NumberState : Type 0 where
  pub graph : Graph
  pub seen : List (ℕ × ℕ)
  pub changed : Bool

unfoldable pub number_hit : ℕ → ℕ → NumberState → Option ℕ → NumberState
number_hit n h s none = record { graph = s.graph; seen = insert h n s.seen; changed = s.changed }
number_hit n h s (some m) = record {
  graph = replace_node n m s.graph;
  seen = s.seen;
  changed = true;
}

-- One round of the loop of `gvn`.
unfoldable pub number_node : ℕ → NumberState → NumberState
number_node n s =
    let h = node_hash (s.graph.at n) in
    if is_numbered (s.graph.at n).kind then number_hit n h s (lookup h s.seen) else s

unfoldable pub number_nodes : List ℕ → NumberState → NumberState
number_nodes [] s = s
number_nodes (n ∷ ns) s = number_nodes ns (number_node n s)

unfoldable pub gvn : Graph → Graph × Bool
gvn g =
    let s = number_nodes g.nodes (record { graph = g; seen = []; changed = false }) in
    (s.graph, s.changed)

-- `cse`
unfoldable pub cse : Graph → Graph × Bool
cse g = gvn g

-- The input of an index, with a null pointer like one that is not there.
unfoldable pub input_at : List (Option ℕ) → ℕ → Option ℕ
input_at is i = elim (get_elem? is i) [ none ↦ none | some o ↦ o ]

unfoldable pub with_constant : Value → Node → Node
with_constant c n = record {
  kind = n.kind;
  type = n.type;
  inputs = n.inputs;
  outputs = n.outputs;
  k = n.k;
  constant = c;
}

-- A new `ConstReal` with the control input of the node, which replaces the node.
unfoldable pub fold_to : ℕ → ℕ → Graph → Graph
fold_to n result g =
    let folded = g.next_id in
    let h = new_node NodeKind.const_real (input_at (g.at n).inputs 0 ∷ []) g in
    replace_node n folded (record {
      nodes = h.nodes;
      at = put folded (with_constant (real result) (h.at folded)) h.at;
      next_id = h.next_id;
    })

-- The value that a node with two constants is folded to. Division by a zero is left alone.
unfoldable pub folded_value : Float → NodeKind → ℕ → ℕ → Option ℕ
folded_value f NodeKind.add a b = some (f.add a b)
folded_value f NodeKind.sub a b = some (f.sub a b)
folded_value f NodeKind.mul a b = some (f.mul a b)
folded_value f NodeKind.div a b = if f.eq b 0 then none else some (f.div a b)
folded_value f _ a b = none

unfoldable pub fold_with : ℕ → Graph → Option ℕ → Graph × Bool
fold_with n g none = (g, false)
fold_with n g (some result) = (fold_to n result g, true)

unfoldable pub fold_operands : Float → ℕ → Graph → Option ℕ → Option ℕ → Graph × Bool
fold_operands f n g (some a) (some b) =
    if is_kind (g.at a).kind NodeKind.const_real && is_kind (g.at b).kind NodeKind.const_real
    then fold_with n g
        (folded_value f (g.at n).kind (as_real (g.at a).constant) (as_real (g.at b).constant))
    else (g, false)
fold_operands f n g _ _ = (g, false)

-- One round of the loop of `constant_fold`.
unfoldable pub fold_node : Float → ℕ → Graph → Graph × Bool
fold_node f n g =
    if ltb (length (g.at n).inputs) 3
    then (g, false)
    else fold_operands f n g (input_at (g.at n).inputs 1) (input_at (g.at n).inputs 2)

unfoldable pub fold_nodes : Float → List ℕ → Graph → Bool → Graph × Bool
fold_nodes f [] g changed = (g, changed)
fold_nodes f (n ∷ ns) g changed = let r = fold_node f n g in fold_nodes f ns r.0 (changed || r.1)

unfoldable pub constant_fold : Float → Graph → Graph × Bool
constant_fold f g = fold_nodes f g.nodes g false

-- The loop of `sccp`, with fuel: `none` where it would go on.
unfoldable pub sccp_loop : Float → ℕ → Graph → Bool → Option (Graph × Bool)
sccp_loop f zero g changed = none
sccp_loop f (suc fuel) g changed =
    let r = constant_fold f g in
    let s = gvn r.0 in
    let now = changed || r.1 || s.1 in
    let rest = sccp_loop f fuel s.0 now in if r.1 then rest else some (s.0, now)

-- `licm` looks at every node and changes nothing.
unfoldable pub licm : Graph → Graph × Bool
licm g = (g, false)
