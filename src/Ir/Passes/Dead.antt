-- ===== src/Ir/Passes/Dead.antt =====
-- `dce` (src/optimizer/passes.cpp) ends with a valid graph in which every root is left and every other
-- node has a user.
use r_sjit.Common.{
  ℕ, zero, suc, ◌<◌, ◌≡◌, refl, ap, ◌∙◌, Bool, true, false, Option, some, arith, length, inl, inr,
  Bool-cases,
}
use r_sjit.Ir.Graph.{Graph}
use r_sjit.Ir.Graph.Edges.{IsValid}
use r_sjit.Ir.Passes.{is_root, sweep, dce_continue, dce_loop, dce}
use r_sjit.Ir.Passes.Dce.{
  AllAlive, IsDistinct, IsKept, IsKept-again, sweep-IsValid, sweep-shorter, sweep-quiet,
  sweep-IsDistinct, sweep-IsKept,
}

pub record Cleaned (g h : Graph) : Type 0 where
  pub valid : IsValid h
  pub alive : AllAlive h.nodes h
  pub roots : (m : ℕ) → is_root (g.at m).kind ≡ true → IsKept m g h

pub record Runs (g : Graph) (r : Option (Graph × Bool)) : Type 0 where
  pub after : Graph
  pub changed : Bool
  pub returns : r ≡ some (after, changed)
  pub cleaned : Cleaned g after

dce_continue_eq :
    (again : Graph → Bool → Option (Graph × Bool)) (p : Graph × Bool) (any : Bool)
    → (p.1 ≡ true → dce_continue again p any ≡ again p.0 true)
      × (p.1 ≡ false → dce_continue again p any ≡ some (p.0, any))
unfolding dce_continue
dce_continue_eq again (g, true) any = (λ h. refl, λ h. ground arith)
dce_continue_eq again (g, false) any = (λ h. ground arith, λ h. refl)

dce_loop-suc :
    (fuel : ℕ) (g : Graph) (any : Bool)
    → dce_loop (suc fuel) g any
      ≡ dce_continue (λ h b. dce_loop fuel h b) (sweep g.nodes g false) any
unfolding dce_loop
dce_loop-suc fuel g any = refl

dce_loop-Runs :
    (fuel : ℕ) (g : Graph) (any : Bool)
    → IsValid g
    → IsDistinct g.nodes
    → length g.nodes < fuel
    → Runs g (dce_loop fuel g any)
dce_loop-Runs zero g any v d l = elim (l) [ ]
dce_loop-Runs (suc fuel) g any v d l =
    let s = sweep g.nodes g false in
    let eqs = dce_continue_eq (λ h b. dce_loop fuel h b) s any in
    elim (Bool-cases s.1) [
      | inl more ↦
          let r =
            dce_loop-Runs fuel s.0 true (sweep-IsValid g.nodes g false v)
              (sweep-IsDistinct g.nodes g false d)
              (omega (arith, sweep-shorter g.nodes g (λ m. omega (arith, d m)) more)) in
          record {
            after = r.after;
            changed = r.changed;
            returns = dce_loop-suc fuel g any ∙ eqs.0 more ∙ r.returns;
            cleaned = record {
              valid = r.cleaned.valid;
              alive = r.cleaned.alive;
              roots = λ m root.
                  let k = sweep-IsKept g.nodes m g false root in
                  IsKept-again m g s.0 r.after k
                    (r.cleaned.roots m (ap is_root k.kept_kind ∙ root));
            };
          }
      | inr done ↦
          let q = sweep-quiet g.nodes g done in
          record {
            after = g;
            changed = any;
            returns = dce_loop-suc fuel g any ∙ eqs.1 done ∙ ap (λ (h : Graph). some (h, any)) q.0;
            cleaned = record {
              valid = v;
              alive = q.1;
              roots = λ m root. record { in_place = refl; kept_kind = refl };
            };
          }
    ]

-- On a valid graph that lists each node once, dead code elimination returns a graph that is valid,
-- in which no listed node is dead, and in which each root is listed as before, with its kind.
pub dce-Runs : (g : Graph) → IsValid g → IsDistinct g.nodes → Runs g (dce g)
unfolding dce
dce-Runs g v d = dce_loop-Runs (suc (length g.nodes)) g false v d (omega arith)
