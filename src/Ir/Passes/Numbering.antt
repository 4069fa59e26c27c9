-- ===== src/Ir/Passes/Numbering.antt =====
-- `gvn` (src/optimizer/passes.cpp): the hash does not tell two real constants apart.
use r_sjit.Common.{ℕ, ◌≡◌, refl, ap, ◌∙◌, true, Option, none}
use r_sjit.Common.Maps.{lookup, nat_key, lookup-insert_self}
use r_sjit.Value.{Value}
use r_sjit.Ir.Graph.{Node, replace_node}
use r_sjit.Ir.Passes.{NumberState, node_hash, number_hit, number_node, is_numbered, with_constant}

-- The hash does not depend on the constant.
node_hash-with_constant : (c : Value) (n : Node) → node_hash (with_constant c n) ≡ node_hash n
unfolding node_hash with_constant
node_hash-with_constant c n = refl

kind_numbered :
    (m : ℕ) (c : Value) (v : Node) (s : NumberState)
    → s.graph.at m ≡ with_constant c v
    → is_numbered v.kind ≡ true
    → is_numbered (s.graph.at m).kind ≡ true
unfolding with_constant
kind_numbered m c v s twin e = ap (λ (x : Node). is_numbered x.kind) twin ∙ e

number_node-numbered :
    (n : ℕ) (s : NumberState)
    → is_numbered (s.graph.at n).kind ≡ true
    → number_node n s
      ≡ number_hit n (node_hash (s.graph.at n)) s (lookup (node_hash (s.graph.at n)) s.seen)
unfolding number_node
number_node-numbered n s e = rw (e) refl

-- When value numbering meets a numbered node whose hash is new and next a node that differs from
-- it in its constant only, it replaces the second node by the first.
pub number_node-merges_constants :
    (n m : ℕ) (c : Value) (s : NumberState)
    → is_numbered (s.graph.at n).kind ≡ true
    → s.graph.at m ≡ with_constant c (s.graph.at n)
    → lookup (node_hash (s.graph.at n)) s.seen ≡ none
    → (number_node m (number_node n s)).graph ≡ replace_node m n s.graph
unfolding number_hit
number_node-merges_constants n m c s e twin new =
    let v = s.graph.at n in
    let h = node_hash v in
    let first : number_node n s ≡ number_hit n h s none =
      number_node-numbered n s e ∙ ap (number_hit n h s) new in
    let hash_m : node_hash (s.graph.at m) ≡ h = ap node_hash twin ∙ node_hash-with_constant c v in
    let t = number_hit n h s none in
    ap (λ (r : NumberState). (number_node m r).graph) first
    ∙ ap (λ (r : NumberState). r.graph) (number_node-numbered m t (kind_numbered m c v s twin e))
    ∙ ap (λ (j : ℕ). (number_hit m j t (lookup j t.seen)).graph) hash_m
    ∙ ap (λ (o : Option ℕ). (number_hit m h t o).graph) (lookup-insert_self h n s.seen)
