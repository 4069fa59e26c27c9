-- ===== src/Ir/Passes/Dce.antt =====
-- `dce` (src/optimizer/passes.cpp) ends, keeps the graph valid and every root, and leaves no dead node.
use r_sjit.Common.{
  ℕ, ◌+◌, ◌<◌, ◌≤◌, ◌≡◌, ◌≢◌, refl, ap, ◌∙◌, Bool, true, false, ==_iff, List, [], ◌∷◌, Option, none,
  some, if◌then◌else◌, arith, length, inl, inr, Bool-cases, All,
}
use r_sjit.Ir.Kind.{is_kind, kind_code}
use r_sjit.Ir.Graph.{
  Node, Graph, blank, put, remove_node, without, drop_user, drop_output, with_outputs,
}
use r_sjit.Ir.Graph.Uses.{count, count-without}
use r_sjit.Ir.Graph.Edges.{IsValid}
use r_sjit.Ir.Graph.Fresh.{remove_node-IsValid}
use r_sjit.Ir.Passes.{is_root, is_empty, is_dead, sweep}

sweep-cons :
    (n : ℕ) (ns : List ℕ) (g : Graph) (b : Bool)
    → sweep (n ∷ ns) g b
      ≡ (if is_dead (g.at n) then sweep ns (remove_node n g) true else sweep ns g b)
unfolding sweep
sweep-cons n ns g b = refl

is_dead-outputs : (v : Node) → is_dead v ≡ true → v.outputs ≡ []
unfolding is_dead is_empty
is_dead-outputs v h = ground arith

blank-alive : is_dead blank ≡ false
unfolding is_dead is_root is_kind kind_code
blank-alive = refl

dead_given : (g : Graph) (n : ℕ) → IsValid g → is_dead (g.at n) ≡ true → n < g.next_id
dead_given g n v h = ground (arith, λ (l : g.next_id ≤ n). ap is_dead (v.fresh n l), blank-alive)

pub sweep-IsValid : (ns : List ℕ) (g : Graph) (b : Bool) → IsValid g → IsValid (sweep ns g b).0
unfolding sweep
sweep-IsValid [] g b v = v
sweep-IsValid (n ∷ ns) g b v = elim (Bool-cases (is_dead (g.at n))) [
  | inl e ↦ rw (e) (
      sweep-IsValid ns (remove_node n g) true
        (remove_node-IsValid n g v (dead_given g n v e) (is_dead-outputs (g.at n) e)))
  | inr e ↦ rw (e) (sweep-IsValid ns g b v)
]

length-without : (n : ℕ) (xs : List ℕ) → length (without n xs) + count n xs ≤ length xs
unfolding without count
length-without n [] = omega arith
length-without n (x ∷ xs) = ground (arith, length-without n xs)

-- The nodes that are left to visit are in the graph, each once.
abbrev pub Ahead : List ℕ → List ℕ → Type 0
Ahead ns nodes = (m : ℕ) → (count m ns ≤ count m nodes) × (count m ns ≤ 1)

Ahead-kept : (n : ℕ) (ns : List ℕ) (g : Graph) → Ahead (n ∷ ns) g.nodes → Ahead ns g.nodes
unfolding count
Ahead-kept n ns g a m = omega (arith, a m)

Ahead-removed :
    (n : ℕ) (ns : List ℕ) (g : Graph) → Ahead (n ∷ ns) g.nodes → Ahead ns (remove_node n g).nodes
unfolding count remove_node
Ahead-removed n ns g a m = ground (
  arith,
  a m,
  a n,
  count-without n m g.nodes,
  ==_iff n m,
  λ (e : n ≡ m). ap (λ (j : ℕ). count j ns) e,
)

sweep-true : (ns : List ℕ) (g : Graph) → (sweep ns g true).1 ≡ true
unfolding sweep
sweep-true [] g = refl
sweep-true (n ∷ ns) g = elim (Bool-cases (is_dead (g.at n))) [
  | inl e ↦ rw (e) (sweep-true ns (remove_node n g))
  | inr e ↦ rw (e) (sweep-true ns g)
]

-- The length of the nodes after a removal.
removed_shorter :
    (n : ℕ) (ns : List ℕ) (g : Graph)
    → Ahead (n ∷ ns) g.nodes
    → length (remove_node n g).nodes < length g.nodes
unfolding count remove_node
removed_shorter n ns g a = ground (arith, length-without n g.nodes, a n)

sweep-le :
    (ns : List ℕ) (g : Graph) (b : Bool)
    → Ahead ns g.nodes
    → length (sweep ns g b).0.nodes ≤ length g.nodes
unfolding sweep
sweep-le [] g b a = omega arith
sweep-le (n ∷ ns) g b a = elim (Bool-cases (is_dead (g.at n))) [
  | inl e ↦ rw (e) (
      omega (
        arith,
        sweep-le ns (remove_node n g) true (Ahead-removed n ns g a),
        removed_shorter n ns g a,
      ))
  | inr e ↦ rw (e) (sweep-le ns g b (Ahead-kept n ns g a))
]

-- A round that changes something removes a node.
pub sweep-shorter :
    (ns : List ℕ) (g : Graph)
    → Ahead ns g.nodes
    → (sweep ns g false).1 ≡ true
    → length (sweep ns g false).0.nodes < length g.nodes
unfolding sweep
sweep-shorter [] g a = λ h. ground arith
sweep-shorter (n ∷ ns) g a = elim (Bool-cases (is_dead (g.at n))) [
  | inl e ↦ rw (e) (λ h. omega (
    arith,
    sweep-le ns (remove_node n g) true (Ahead-removed n ns g a),
    removed_shorter n ns g a,
  ))
  | inr e ↦ rw (e) (sweep-shorter ns g (Ahead-kept n ns g a))
]

abbrev pub AllAlive : List ℕ → Graph → Type 0
AllAlive ns g = All (λ (n : ℕ). is_dead (g.at n) ≡ false) ns

-- A round that changes nothing finds no dead node.
pub sweep-quiet :
    (ns : List ℕ) (g : Graph)
    → (sweep ns g false).1 ≡ false
    → ((sweep ns g false).0 ≡ g) × AllAlive ns g
unfolding sweep
sweep-quiet [] g = λ h. (refl, tt)
sweep-quiet (n ∷ ns) g = elim (Bool-cases (is_dead (g.at n))) [
  | inl e ↦ rw (e) (λ h. ground (arith, sweep-true ns (remove_node n g)))
  | inr e ↦ rw (e) (λ h. let r = sweep-quiet ns g h in (r.0, (refl, r.1)))
]

abbrev pub IsDistinct : List ℕ → Type 0
IsDistinct ns = (m : ℕ) → count m ns ≤ 1

removed-IsDistinct : (n : ℕ) (g : Graph) → IsDistinct g.nodes → IsDistinct (remove_node n g).nodes
unfolding remove_node
removed-IsDistinct n g d m = ground (arith, count-without n m g.nodes, d m)

pub sweep-IsDistinct :
    (ns : List ℕ) (g : Graph) (b : Bool) → IsDistinct g.nodes → IsDistinct (sweep ns g b).0.nodes
unfolding sweep
sweep-IsDistinct [] g b d = d
sweep-IsDistinct (n ∷ ns) g b d = elim (Bool-cases (is_dead (g.at n))) [
  | inl e ↦ rw (e) (sweep-IsDistinct ns (remove_node n g) true (removed-IsDistinct n g d))
  | inr e ↦ rw (e) (sweep-IsDistinct ns g b d)
]

put-kind :
    (n m : ℕ) (v : Node) (h : ℕ → Node)
    → (n ≡ m → v.kind ≡ (h m).kind)
    → (put n v h m).kind ≡ (h m).kind
unfolding put
put-kind n m v h same = ground (arith, ==_iff n m, same)

drop_user-kind :
    (is : List (Option ℕ)) (n m : ℕ) (h : ℕ → Node) → (drop_user is n h m).kind ≡ (h m).kind
unfolding drop_user drop_output with_outputs
drop_user-kind [] n m h = refl
drop_user-kind (none ∷ is) n m h = drop_user-kind is n m h
drop_user-kind (some i ∷ is) n m h =
    drop_user-kind is n m (drop_output i n h)
    ∙ put-kind i m (with_outputs (h i) (without n (h i).outputs)) h
        (λ e. ap (λ (j : ℕ). (h j).kind) e)

removed-kind : (n m : ℕ) (g : Graph) → n ≢ m → ((remove_node n g).at m).kind ≡ (g.at m).kind
unfolding remove_node
removed-kind n m g d =
    put-kind n m blank (drop_user (g.at n).inputs n g.at) (λ e. elim (d e) [ ])
    ∙ drop_user-kind (g.at n).inputs n m g.at

root_alive : (v : Node) → is_root v.kind ≡ true → is_dead v ≡ false
unfolding is_dead
root_alive v h = ground arith

-- A root stands in the graph as before.
pub record IsKept (m : ℕ) (g h : Graph) : Type 0 where
  pub in_place : count m h.nodes ≡ count m g.nodes
  pub kept_kind : (h.at m).kind ≡ (g.at m).kind

removed-IsKept :
    (n m : ℕ) (g : Graph)
    → is_root (g.at m).kind ≡ true
    → is_dead (g.at n) ≡ true
    → IsKept m g (remove_node n g)
unfolding remove_node
removed-IsKept n m g root dead =
    let d : n ≢ m =
      λ e. ground (arith, root_alive (g.at m) root, ap (λ (j : ℕ). is_dead (g.at j)) e) in
    record {
      in_place = ground (arith, count-without n m g.nodes, ==_iff n m);
      kept_kind = removed-kind n m g d;
    }

pub IsKept-again : (m : ℕ) (f g h : Graph) → IsKept m f g → IsKept m g h → IsKept m f h
IsKept-again m f g h a b = record {
  in_place = b.in_place ∙ a.in_place;
  kept_kind = b.kept_kind ∙ a.kept_kind;
}

pub sweep-IsKept :
    (ns : List ℕ) (m : ℕ) (g : Graph) (b : Bool)
    → is_root (g.at m).kind ≡ true
    → IsKept m g (sweep ns g b).0
unfolding sweep
sweep-IsKept [] m g b root = record { in_place = refl; kept_kind = refl }
sweep-IsKept (n ∷ ns) m g b root = elim (Bool-cases (is_dead (g.at n))) [
  | inl e ↦ rw (e) (
      let k = removed-IsKept n m g root e in
      IsKept-again m g (remove_node n g) (sweep ns (remove_node n g) true).0 k
        (sweep-IsKept ns m (remove_node n g) true (ap is_root k.kept_kind ∙ root)))
  | inr e ↦ rw (e) (sweep-IsKept ns m g b root)
]
