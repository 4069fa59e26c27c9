-- ===== src/Env/Transitions.antt =====
-- What the transitions of the shape table guarantee (src/core/environment.cpp).
use native.Mathlib.Nat.{mod-eq_of_lt}
use r_sjit.Common.{
  ℕ, zero, suc, ◌≡◌, ◌<◌, ◌%◌, refl, ap, subst, ◌∙◌, Bool-cases, List, [], ◌∷◌, ◌++◌, none, some,
  false, arith, length, length-append, get_elem?, get_elem?-append_cases, get_elem?-append_last,
  get_elem?-append_left, get_elem?-lt_length, get_or-of_get_elem?, inl, inr, Option-cases, ◌==◌,
  u32_max, u32_size, if◌then◌else◌,
}
use r_sjit.Common.Maps.{lookup, insert, nat_key, lookup-insert, lookup-insert_self}
use r_sjit.Env.Shapes.{
  Shape, slot_of, slot_of-lookup, add, add_slot, no_shape, add-absent, add-present,
}
use r_sjit.Env.Table.{
  ShapeTable, init, shape_at, cache_key, extended, add_from, transition_add, IsValid,
}

pub init-IsValid : IsValid init
unfolding init lookup
init-IsValid = record {
  ids = λ i s h. only_shape i s h (λ n r. r.id ≡ n) refl;
  bounded = λ i s h.
      only_shape i s h (λ _ r. (k v : ℕ) → lookup k r.slots ≡ some v → v < u32_max) (λ k v g. cc);
  cached = λ i k hit s b h g. cc;
  keys_known = λ i k hit b g. cc;
}
  where
    only_shape :
        (i : ℕ) (s : Shape)
        → get_elem? (no_shape ∷ []) i ≡ some s
        → (P : ℕ → Shape → Type 0) → P 0 no_shape
        → P i s
    only_shape zero s h P p = subst (P 0) (cc) p
    only_shape (suc i) s h P p = cc

-- The conditions under which a symbol can be added to the shape with an index.
pub record CanAdd (t : ShapeTable) (i : ℕ) (s : Shape) (k : ℕ) : Type 0 where
  pub at : get_elem? t.shapes i ≡ some s
  pub symbol : k < u32_size
  pub room : length t.shapes < u32_size
  pub slots_room : length s.slots < u32_max

pub add_slot-bounded :
    (k : ℕ) (slots : List (ℕ × ℕ))
    → length slots < u32_max
    → ((j v : ℕ) → lookup j slots ≡ some v → v < u32_max)
    → (j v : ℕ) → lookup j (add_slot k slots) ≡ some v
    → v < u32_max
unfolding add_slot
add_slot-bounded k slots room h j v g =
    ground (arith, lookup-insert k j (length slots % u32_size) slots, h j v)

abbrev pub push_shape : ShapeTable → Shape → ℕ → ShapeTable
push_shape t s k = record {
  shapes = t.shapes ++ extended t s k ∷ [];
  add_cache = insert (cache_key s.id k) (length t.shapes) t.add_cache;
}

module _ (t : ShapeTable) (i : ℕ) (s : Shape) (k : ℕ) (v : IsValid t) (c : CanAdd t i s k)
    (fresh : lookup k s.slots ≡ none) where
  push_shape-cached :
      (j l hit : ℕ) (r : Shape)
      → l < u32_size
      → get_elem? (push_shape t s k).shapes j ≡ some r
      → lookup (cache_key j l) (push_shape t s k).add_cache ≡ some hit
      → (q : Shape) × (get_elem? (push_shape t s k).shapes hit ≡ some q)
        × (q.slots ≡ add_slot l r.slots)
        × (lookup l r.slots ≡ none)
  push_shape-cached j l hit r b h g = elim (Bool-cases (cache_key s.id k == cache_key j l)) [
    | inl same ↦ hit_new (ground arith) (ground arith) (ground (arith, looked))
    | inr other ↦ hit_old (ground (arith, looked))
  ]
    where
      looked : lookup (cache_key j l) (insert (cache_key s.id k) (length t.shapes) t.add_cache) ≡ (
          if cache_key s.id k == cache_key j l
          then some (length t.shapes)
          else lookup (cache_key j l) t.add_cache)
      looked = lookup-insert (cache_key s.id k) (cache_key j l) (length t.shapes) t.add_cache

      here : s.id ≡ i
      here = v.ids i s c.at

      hit_new :
          j ≡ s.id
          → l ≡ k
          → hit ≡ length t.shapes
          → (q : Shape) × (get_elem? (push_shape t s k).shapes hit ≡ some q)
            × (q.slots ≡ add_slot l r.slots)
            × (lookup l r.slots ≡ none)
      hit_new ej el eh =
          let at_i = get_elem?-append_left t.shapes (extended t s k ∷ []) i s c.at in
          let r_eq : s ≡ r = cc (at_i, h, ap (get_elem? (push_shape t s k).shapes) (ej ∙ here)) in
          (
            extended t s k,
            rw eh (get_elem?-append_last t.shapes (extended t s k)),
            rw (← r_eq, el) refl,
            rw (← r_eq, el) fresh,
          )

      hit_old :
          lookup (cache_key j l) t.add_cache ≡ some hit
          → (q : Shape) × (get_elem? (push_shape t s k).shapes hit ≡ some q)
            × (q.slots ≡ add_slot l r.slots)
            × (lookup l r.slots ≡ none)
      hit_old e = elim (get_elem?-append_cases t.shapes (extended t s k) r j h) [
        | inl old ↦
            let q = v.cached j l hit r b old e in
            (q.0, get_elem?-append_left t.shapes (extended t s k ∷ []) hit q.0 q.1, q.2, q.3)
        | inr p ↦ absurd (omega (arith, p.0, v.keys_known j l hit b e))
      ]

  push_shape-IsValid : IsValid (push_shape t s k)
  push_shape-IsValid = record {
    ids = λ j r h. elim (get_elem?-append_cases t.shapes (extended t s k) r j h) [
      | inl old ↦ v.ids j r old
      | inr p ↦ rw (← p.1, p.0) (mod-eq_of_lt c.room)
    ];
    bounded = λ j r h. elim (get_elem?-append_cases t.shapes (extended t s k) r j h) [
      | inl old ↦ v.bounded j r old
      | inr p ↦ rw (← p.1) (add_slot-bounded k s.slots c.slots_room (v.bounded i s c.at))
    ];
    cached = push_shape-cached;
    keys_known = λ j l hit b g. elim (Bool-cases (cache_key s.id k == cache_key j l)) [
      | inl same ↦ ground (
        arith,
        v.ids i s c.at,
        length-append t.shapes (extended t s k ∷ []),
        get_elem?-lt_length t.shapes i s c.at,
      )
      | inr other ↦ ground (
        arith,
        length-append t.shapes (extended t s k ∷ []),
        lookup-insert (cache_key s.id k) (cache_key j l) (length t.shapes) t.add_cache,
        v.keys_known j l hit b,
      )
    ];
  }

pub shape_at-get_elem? :
    (t : ShapeTable) (i : ℕ) (s : Shape) → get_elem? t.shapes i ≡ some s → shape_at t i ≡ s
shape_at-get_elem? t i s h = get_or-of_get_elem? t.shapes i s no_shape h

-- The shape with an index in a later table has the slots that `Shape::add` gives.
pub record IsAdded (t u : ShapeTable) (s : Shape) (k n : ℕ) : Type 0 where
  pub valid : IsValid u
  pub kept : (j : ℕ) (r : Shape) → get_elem? t.shapes j ≡ some r → get_elem? u.shapes j ≡ some r
  pub shape : Shape
  pub shape_here : get_elem? u.shapes n ≡ some shape
  pub shape_slots : shape.slots ≡ (add s k).slots

hit_at :
    (t : ShapeTable) (i : ℕ) (s : Shape) (k hit : ℕ)
    → get_elem? t.shapes i ≡ some s
    → lookup (cache_key s.id k) t.add_cache ≡ some hit
    → transition_add t i k ≡ (hit, t)
unfolding transition_add add_from
hit_at t i s k hit a h = rw (shape_at-get_elem? t i s a, h)

module _ (t : ShapeTable) (i : ℕ) (s : Shape) (k : ℕ) (v : IsValid t) (c : CanAdd t i s k) where
  here : shape_at t i ≡ s
  here = shape_at-get_elem? t i s c.at

  pub transition_add-hit :
      (hit : ℕ) → lookup (cache_key s.id k) t.add_cache ≡ some hit → transition_add t i k ≡ (hit, t)
  transition_add-hit hit h = hit_at t i s k hit c.at h

  pub transition_add-present :
      lookup (cache_key s.id k) t.add_cache ≡ none
      → (slot_of s k == u32_max) ≡ false
      → transition_add t i k ≡ (i, t)
  unfolding transition_add add_from
  transition_add-present h e = rw (here, h, e)

  pub transition_add-new :
      lookup (cache_key s.id k) t.add_cache ≡ none
      → slot_of s k ≡ u32_max
      → transition_add t i k ≡ (length t.shapes, push_shape t s k)
  unfolding transition_add add_from
  transition_add-new h e = rw (here, h, e)

  IsAdded-hit : (hit : ℕ) → lookup (cache_key s.id k) t.add_cache ≡ some hit → IsAdded t t s k hit
  IsAdded-hit hit h =
      let q = v.cached i k hit s c.symbol c.at (rw (v.ids i s c.at) at h) in
      record {
        valid = v;
        kept = λ j r g. g;
        shape = q.0;
        shape_here = q.1;
        shape_slots = rw (add-absent s k q.3) (q.2);
      }

  IsAdded-present : (x : ℕ) → lookup k s.slots ≡ some x → IsAdded t t s k i
  IsAdded-present x e = record {
    valid = v;
    kept = λ j r g. g;
    shape = s;
    shape_here = c.at;
    shape_slots = rw (add-present s k x e);
  }

  IsAdded-new : lookup k s.slots ≡ none → IsAdded t (push_shape t s k) s k (length t.shapes)
  IsAdded-new e = record {
    valid = push_shape-IsValid t i s k v c e;
    kept = λ j r g. get_elem?-append_left t.shapes (extended t s k ∷ []) j r g;
    shape = extended t s k;
    shape_here = get_elem?-append_last t.shapes (extended t s k);
    shape_slots = rw (add-absent s k e);
  }

  -- For a shape of a valid table with room for one more shape and slot, `transition_add` keeps the
  -- table valid, leaves the shapes that are there, and returns a shape with the slots that
  -- `Shape::add` describes.
  pub transition_add-IsAdded : IsAdded t (transition_add t i k).1 s k (transition_add t i k).0
  transition_add-IsAdded = elim (Option-cases (lookup (cache_key s.id k) t.add_cache)) [
    | inr (hit, e) ↦ rw (transition_add-hit hit e) (IsAdded-hit hit e)
    | inl e ↦ elim (slot_of-lookup s k (v.bounded i s c.at k)) [
      | inl absent ↦ rw (transition_add-new e absent.0) (IsAdded-new absent.1)
      | inr present ↦
          rw (transition_add-present e (ground (arith, present.0)))
            (IsAdded-present (slot_of s k) present.1)
    ]
  ]

  idempotent_new :
      (r : ℕ × ShapeTable) → r ≡ (length t.shapes, push_shape t s k) → transition_add r.1 i k ≡ r
  idempotent_new r e = rw e (
      hit_at (push_shape t s k) i s k (length t.shapes)
        (get_elem?-append_left t.shapes (extended t s k ∷ []) i s c.at)
        (lookup-insert_self (cache_key s.id k) (length t.shapes) t.add_cache))

  idempotent_same :
      (r : ℕ × ShapeTable) (n : ℕ)
      → transition_add t i k ≡ r
      → r ≡ (n, t)
      → transition_add r.1 i k ≡ r
  idempotent_same r n p e = rw e (p ∙ e)

  -- For a shape of a valid table with room for one more shape and slot, asking for the same
  -- transition again gives the same shape and changes nothing.
  pub transition_add-idempotent : transition_add (transition_add t i k).1 i k ≡ transition_add t i k
  transition_add-idempotent = elim (Option-cases (lookup (cache_key s.id k) t.add_cache)) [
    | inr (hit, e) ↦ idempotent_same _ hit refl (transition_add-hit hit e)
    | inl e ↦ elim (slot_of-lookup s k (v.bounded i s c.at k)) [
      | inl absent ↦ idempotent_new _ (transition_add-new e absent.0)
      | inr present ↦
          idempotent_same _ i refl (transition_add-present e (ground (arith, present.0)))
    ]
  ]
