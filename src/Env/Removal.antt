-- ===== src/Env/Removal.antt =====
-- `Environment::remove` (src/core/environment.cpp), and what a removal does to later definitions.
use r_sjit.Common.{
  ℕ, suc, ◌≡◌, ◌≢◌, ◌<◌, ◌%◌, refl, ◌∙◌, List, [], ◌∷◌, inl, inr, none, some, arith, length,
  length-set, length-append, get_or, get_elem?-append_last, get_or-set_self, get_or-set_ne, set,
  Option-cases, ◌==◌, ==_ne, u32_max, u32_size, if◌then◌else◌,
}
use r_sjit.Common.Maps.{lookup, erase, nat_key, lookup-insert, lookup-erase}
use r_sjit.Value.{Value}
use r_sjit.Env.Shapes.{
  Shape, slot_of, slot_of-some, slot_of-none, slot_of-lookup, add_slot, IsDense,
}
use r_sjit.Env.Shapes
use r_sjit.Env.Transitions.{shape_at-get_elem?}
use r_sjit.Env.Shrinking.{push_shrunk, shrunk, push_shrunk-IsValid, transition_remove-present}
use r_sjit.Env.Frame.{
  view, view_at, frame_view, Fits, Room, Defines, overwritten, extended, define-Defines,
  lt-length-grow_to,
}
use r_sjit.Env.{
  World, Environment, Binding, BindingState, unbound, env_at, own_slot, defined, define, remove,
  no_env, grow_to, remove_slot,
}

abbrev emptied : Binding → Binding
emptied b = record b { state = BindingState.empty; content = unbound.content }

abbrev after_removal : World → ℕ → Shape → ℕ → ℕ → World
after_removal w e s k n = record {
  table = push_shrunk w.table s k;
  envs = set w.envs e (record (env_at w e) {
    shape = length w.table.shapes;
    bindings = set (env_at w e).bindings n (emptied (get_or (env_at w e).bindings n unbound));
  });
}

erase_view :
    (slots : List (ℕ × ℕ)) (bs : List Binding) (k n j : ℕ) (b : Binding)
    → IsDense slots
    → lookup k slots ≡ some n
    → frame_view (erase k slots) (set bs n b) j ≡ (if k == j then none else frame_view slots bs j)
unfolding frame_view
erase_view slots bs k n j b d h = elim (Option-cases (lookup j slots)) [
  | inl e ↦ ground (arith, lookup-erase k j slots)
  | inr (i, e) ↦
      ground (arith, lookup-erase k j slots, d.distinct j k n, get_or-set_ne bs n i b unbound)
]

frame_view_absent :
    (slots : List (ℕ × ℕ)) (bs : List Binding) (k j : ℕ)
    → lookup k slots ≡ none
    → frame_view slots bs j ≡ (if k == j then none else frame_view slots bs j)
unfolding frame_view
frame_view_absent slots bs k j h = ground arith

frame_view_last :
    (slots : List (ℕ × ℕ)) (bs : List Binding) (c last : ℕ) (b : Binding)
    → lookup last slots ≡ some (length slots)
    → c ≢ last
    → frame_view (add_slot c slots) (set (grow_to bs (length slots)) (length slots) b) last ≡ some b
unfolding frame_view add_slot
frame_view_last slots bs c last b h other = ground (
  arith,
  lookup-insert c last (length slots % u32_size) slots,
  get_or-set_self (grow_to bs (length slots)) (length slots) b unbound
      (lt-length-grow_to bs (length slots)),
)

module _ (w : World) (e : ℕ) (f : Fits w e) (k : ℕ) (room : length w.table.shapes < u32_size) where
  remove_present :
      (n : ℕ) → lookup k f.shape.slots ≡ some n → remove w e k ≡ after_removal w e f.shape k n
  unfolding remove remove_slot own_slot
  remove_present n h =
      let slot = slot_of-some f.shape k n h in
      let below = f.valid.bounded _ f.shape f.at k n h in
      rw (
        shape_at-get_elem? w.table (env_at w e).shape f.shape f.at,
        slot,
        ==_ne n u32_max (omega (arith, below)),
        transition_remove-present w.table (env_at w e).shape f.shape k f.valid f.at room
            (rw slot below),
      )

  remove_absent : lookup k f.shape.slots ≡ none → remove w e k ≡ w
  unfolding remove own_slot
  remove_absent h =
      rw (shape_at-get_elem? w.table (env_at w e).shape f.shape f.at, slot_of-none f.shape k h)

  view_here : (j : ℕ) → view w e j ≡ frame_view f.shape.slots (env_at w e).bindings j
  view_here j = view_at w e _ f.shape j refl f.at

  view_removed :
      (n j : ℕ)
      → view (after_removal w e f.shape k n) e j
        ≡ frame_view
            (erase k f.shape.slots)
            (set (env_at w e).bindings n (emptied (get_or (env_at w e).bindings n unbound)))
            j
  unfolding Shapes.remove
  view_removed n j =
      view_at (after_removal w e f.shape k n) e _ (shrunk w.table f.shape k) j
        (get_or-set_self w.envs e _ _ f.known)
        (get_elem?-append_last w.table.shapes (shrunk w.table f.shape k))

  -- In an environment that fits its dense shape, with room for one more shape, removing a symbol
  -- unbinds that symbol and leaves what every other symbol is bound to.
  pub view-remove :
      IsDense f.shape.slots
      → (j : ℕ) → view (remove w e k) e j ≡ (if k == j then none else view w e j)
  view-remove d j = elim (Option-cases (lookup k f.shape.slots)) [
    | inl e₀ ↦ rw (remove_absent e₀, view_here j) (absent e₀)
    | inr (n, h) ↦
        rw (remove_present n h, view_here j)
          (view_removed n j ∙ erase_view f.shape.slots (env_at w e).bindings k n j _ d h)
  ]
    where
      absent :
          lookup k f.shape.slots ≡ none
          → frame_view f.shape.slots (env_at w e).bindings j
            ≡ (if k == j then none else frame_view f.shape.slots (env_at w e).bindings j)
      absent h = frame_view_absent f.shape.slots (env_at w e).bindings k j h

  remove-Fits : (n : ℕ) → lookup k f.shape.slots ≡ some n → Fits (after_removal w e f.shape k n) e
  unfolding Shapes.remove
  remove-Fits n h = record {
    valid = push_shrunk-IsValid w.table _ f.shape k f.valid f.at room;
    known = omega (arith, f.known, length-set w.envs e (removed_env n));
    shape = shrunk w.table f.shape k;
    at =
        rw (get_or-set_self w.envs e (removed_env n) no_env f.known)
          (get_elem?-append_last w.table.shapes (shrunk w.table f.shape k));
    stored = λ j v g. rw (get_or-set_self w.envs e (removed_env n) no_env f.known) (
        ground (
          arith,
          lookup-erase k j f.shape.slots,
          f.stored j v,
          length-set (env_at w e).bindings n (emptied (get_or (env_at w e).bindings n unbound)),
        ));
  }
    where
      removed_env : ℕ → Environment
      removed_env n = record (env_at w e) {
        shape = length w.table.shapes;
        bindings = set (env_at w e).bindings n (emptied (get_or (env_at w e).bindings n unbound));
      }

-- After a definition that extended the slots `slots`, the binding that stood in the slot whose
-- number is the count of `slots` is the new one.
overwritten_view :
    (u : World) (e c last : ℕ) (x : Value) (f : Fits u e) (m : Room u f.shape.slots c)
    → lookup c f.shape.slots ≡ none
    → lookup last f.shape.slots ≡ some (length f.shape.slots)
    → c ≢ last
    → view (define u e c x) e last ≡ some (defined x)
overwritten_view u e c last x f m new at_end other = by_cases (define-Defines u e f c x m)
  where
    by_cases : {q : World} → Defines u e c x f.shape.slots q → view q e last ≡ some (defined x)
    by_cases (overwritten n h eq) = cc
    by_cases (extended s t r _ valid at slots_eq eq) = rw eq (
        view_at _ e _ r last (get_or-set_self u.envs e _ _ f.known) at
        ∙ rw slots_eq
            (frame_view_last f.shape.slots (env_at u e).bindings c last (defined x) at_end other))

-- After a symbol was removed from an environment with dense slots, with room for the shapes,
-- defining a symbol that is not bound then binds to the value also the symbol whose slot had the
-- highest number, if that is neither of the two symbols.
pub define-after_remove :
    (w : World) (e : ℕ) (f : Fits w e) (k c last i n : ℕ) (x : Value)
    → IsDense f.shape.slots
    → lookup k f.shape.slots ≡ some i
    → lookup last f.shape.slots ≡ some n
    → suc n ≡ length f.shape.slots
    → k ≢ last
    → c ≢ last
    → lookup c (erase k f.shape.slots) ≡ none
    → c < u32_size
    → length f.shape.slots < u32_max
    → suc (length w.table.shapes) < u32_size
    → view (define (remove w e k) e c x) e last ≡ some (defined x)
unfolding Shapes.remove remove-Fits
define-after_remove w e f k c last i n x d hk hl top ne ne' new small slots_room room =
    let fewer = d.counted k i hk in
    rw (remove_present w e f k (omega arith) i hk) (
      overwritten_view (after_removal w e f.shape k i) e c last x
        (remove-Fits w e f k (omega arith) i hk)
        (record {
          symbol = small;
          shapes_room = omega (arith, length-append w.table.shapes (shrunk w.table f.shape k ∷ []));
          slots_room = omega (arith, fewer);
        })
        new (ground (arith, lookup-erase k last f.shape.slots, fewer)) ne')
