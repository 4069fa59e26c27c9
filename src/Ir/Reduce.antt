-- ===== src/Ir/Reduce.antt =====
-- src/optimizer/passes.cpp, src/optimizer/escape.cpp, src/optimizer/pea.cpp: strength reduction, the
-- driver of the passes, escape analysis and scalar replacement.
use r_sjit.Common.{
  ℕ, ◌>>=◌, zero, suc, Bool, true, false, not, ◌&&◌, ◌||◌, List, [], ◌∷◌, Option, none, some,
  if◌then◌else◌, any, length, ltb,
}
use r_sjit.Value.{Float, as_real}
use r_sjit.Ir.Kind.{NodeKind, is_kind}
use r_sjit.Ir.Graph.{Graph, new_node, replace_node}
use r_sjit.Ir.Passes.{is_empty, input_at, constant_fold, gvn, sccp_loop, licm, dce}

-- The bits of 1.0.
abbrev pub one_bits : ℕ
one_bits = 4607182418800017408

-- `replace_node(n, r)`, where a null `r` is read if the node has a user: `none`.
unfoldable pub replace_by : ℕ → Option ℕ → Graph → Option Graph
replace_by n none g = if is_empty (g.at n).outputs then some g else none
replace_by n (some r) g = some (replace_node n r g)

-- Is the third input a real constant equal to `d`?
unfoldable pub third_is : Float → ℕ → ℕ → Graph → Bool
third_is f d n g = elim (input_at (g.at n).inputs 2) [
  | none ↦ false
  | some b ↦ is_kind (g.at b).kind NodeKind.const_real && f.eq (as_real (g.at b).constant) d
]

-- The three rules for the node, in order; each looks at the graph that the one before left.
unfoldable pub reduces : Float → NodeKind → ℕ → ℕ → Graph → Bool
reduces f kind d n g =
    is_kind (g.at n).kind kind && not (ltb (length (g.at n).inputs) 3) && third_is f d n g

unfoldable pub by_input : Float → NodeKind → ℕ → ℕ → ℕ → Graph × Bool → Option (Graph × Bool)
by_input f kind d i n (g, changed) =
    if reduces f kind d n g
    then (elim (replace_by n (input_at (g.at n).inputs i) g) [
      | none ↦ none
      | some h ↦ some (h, true)
    ])
    else some (g, changed)

-- x * 1 is x, x + 0 is x, and x * 0 is the constant 0.
unfoldable pub reduce_node : Float → ℕ → Graph × Bool → Option (Graph × Bool)
reduce_node f n s = do
  t ← by_input f NodeKind.mul one_bits 1 n s
  u ← by_input f NodeKind.add 0 1 n t
  by_input f NodeKind.mul 0 2 n u

unfoldable pub reduce_nodes : Float → List ℕ → Graph × Bool → Option (Graph × Bool)
reduce_nodes f [] s = some s
reduce_nodes f (n ∷ ns) s = do t ← reduce_node f n s; reduce_nodes f ns t

unfoldable pub strength_reduce : Float → Graph → Option (Graph × Bool)
strength_reduce f g = reduce_nodes f g.nodes (g, false)

-- A round of the driver: `none` where a pass does not end or reads a null pointer. `fuel` bounds `sccp`.
unfoldable pub one_round : Float → ℕ → Graph → Option (Graph × Bool)
one_round f fuel g = do
  let a = constant_fold f g
  b ← strength_reduce f a.0
  let c = gvn b.0
  d ← sccp_loop f fuel c.0 false
  let e = licm d.0
  h ← dce e.0
  some (h.0, a.1 || b.1 || c.1 || d.1 || e.1 || h.1)

-- The driver: `left` rounds are left before the safety stop, and `iter` counts those that changed something.
unfoldable pub run_rounds : Float → ℕ → ℕ → ℕ → Graph → Option (Graph × ℕ)
run_rounds f fuel zero iter g = some (g, iter)
run_rounds f fuel (suc left) iter g = do
  r ← one_round f fuel g
  if r.1 then run_rounds f fuel left (suc iter) r.0 else some (r.0, iter)

-- `run_all_passes` stops when `iter` passes 100.
unfoldable pub run_all_passes : Float → ℕ → Graph → Option (Graph × ℕ)
run_all_passes f fuel g = run_rounds f fuel 101 0 g

-- The uses by which an allocation escapes in `escape_analysis`.
unfoldable pub is_escape : NodeKind → Bool
is_escape NodeKind.return = true
is_escape NodeKind.call = true
is_escape NodeKind.store_var = true
is_escape NodeKind.tail_call = true
is_escape _ = false

unfoldable pub escapes : Graph → ℕ → Bool
escapes g n = any (λ u. is_escape (g.at u).kind) (g.at n).outputs

-- Is there an allocation that does not escape?
unfoldable pub escape_analysis : Graph → Bool
escape_analysis g = any (λ n. is_kind (g.at n).kind NodeKind.allocate && not (escapes g n)) g.nodes

-- The uses that `pea` takes for an escape.
unfoldable pub is_leak : NodeKind → Bool
is_leak NodeKind.call = true
is_leak NodeKind.return = true
is_leak NodeKind.store_var = true
is_leak NodeKind.store_field = true
is_leak NodeKind.store_element = true
is_leak _ = false

unfoldable pub leaks : Graph → ℕ → Bool
leaks g n = any (λ u. is_leak (g.at u).kind) (g.at n).outputs

-- A `VirtualObject` with the control input of the allocation takes its place.
unfoldable pub virtualize : ℕ → Graph → Graph
virtualize n g =
    replace_node n g.next_id (new_node NodeKind.virtual_object (input_at (g.at n).inputs 0 ∷ []) g)

-- The loop of `pea` on the allocations, in the order in which the hash set has them.
unfoldable pub pea_loop : List ℕ → Graph × Bool → Graph × Bool
pea_loop [] s = s
pea_loop (n ∷ ns) (g, changed) =
    if leaks g n then pea_loop ns (g, changed) else pea_loop ns (virtualize n g, true)

unfoldable pub allocations : Graph → List ℕ → List ℕ
allocations g [] = []
allocations g (n ∷ ns) =
    let rest = allocations g ns in
    if is_kind (g.at n).kind NodeKind.allocate then n ∷ rest else rest

-- `pea`, with the order of the hash set as a parameter.
unfoldable pub pea : (List ℕ → List ℕ) → Graph → Graph × Bool
pea order g = pea_loop (order (allocations g g.nodes)) (g, false)
