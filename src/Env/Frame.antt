-- ===== src/Env/Frame.antt =====
-- One environment seen as a finite map from symbols to bindings, and `define` and `remove`
-- (src/core/environment.cpp) as operations of that map.
use native.Mathlib.Nat.{mod-eq_of_lt}
use r_sjit.Common.{
  ℕ, suc, ◌≡◌, ◌<◌, ◌%◌, refl, ap, ◌∙◌, List, inl, inr, Option, none, some, arith, length,
  length-grow, get_or, get_elem?, get_or-set_self, get_or-set_ne, get_or-grow, set, Option-cases,
  ◌==◌, ==_ne, u32_max, u32_size, if◌then◌else◌,
}
use r_sjit.Common.Maps.{lookup, nat_key, lookup-insert, lookup-insert_self}
use r_sjit.Value.{Value}
use r_sjit.Env.Shapes.{Shape, slot_of, slot_of-lookup, add_slot, IsDense, add-absent}
use r_sjit.Env.Table.{ShapeTable, IsValid, shape_at, transition_add}
use r_sjit.Env.Transitions.{CanAdd, transition_add-IsAdded, shape_at-get_elem?}
use r_sjit.Env.{
  World, Environment, Binding, unbound, env_at, put_env, own_slot, grow_to, defined, define_new,
  define,
}

-- The binding of a symbol, by the slots of a shape.
unfoldable pub frame_view : List (ℕ × ℕ) → List Binding → ℕ → Option Binding
frame_view slots bs k = elim (lookup k slots) [ none ↦ none | some i ↦ some (get_or bs i unbound) ]

overwrite_view :
    (slots : List (ℕ × ℕ)) (bs : List Binding) (k n j : ℕ) (b : Binding)
    → IsDense slots
    → lookup k slots ≡ some n
    → n < length bs
    → frame_view slots (set bs n b) j ≡ (if k == j then some b else frame_view slots bs j)
unfolding frame_view
overwrite_view slots bs k n j b d h room = elim (Option-cases (lookup j slots)) [
  | inl e ↦ ground arith
  | inr (i, e) ↦
      ground (
        arith,
        d.distinct j k n,
        get_or-set_self bs n b unbound room,
        get_or-set_ne bs n i b unbound,
      )
]

get_or-grow_to :
    (bs : List Binding) (n i : ℕ) → get_or (grow_to bs n) i unbound ≡ get_or bs i unbound
unfolding grow_to
get_or-grow_to bs n i = ground (arith, get_or-grow bs (suc n) i unbound)

pub lt-length-grow_to : (bs : List Binding) (n : ℕ) → n < length (grow_to bs n)
unfolding grow_to
lt-length-grow_to bs n = ground (arith, length-grow bs (suc n) unbound)

extend_view :
    (slots : List (ℕ × ℕ)) (bs : List Binding) (k j : ℕ) (b : Binding)
    → IsDense slots
    → lookup k slots ≡ none
    → length slots < u32_size
    → frame_view (add_slot k slots) (set (grow_to bs (length slots)) (length slots) b) j
      ≡ (if k == j then some b else frame_view slots bs j)
unfolding frame_view add_slot
extend_view slots bs k j b d new room = elim (Option-cases (lookup j slots)) [
  | inl e ↦ ground (
    arith,
    mod-eq_of_lt room,
    lookup-insert k j (length slots % u32_size) slots,
    get_or-set_self (grow_to bs (length slots)) (length slots) b unbound
        (lt-length-grow_to bs (length slots)),
  )
  | inr (i, e) ↦ ground (
    arith,
    mod-eq_of_lt room,
    lookup-insert k j (length slots % u32_size) slots,
    d.bounded j i e,
    get_or-grow_to bs (length slots) i,
    get_or-set_ne (grow_to bs (length slots)) (length slots) i b unbound,
    get_or-set_self (grow_to bs (length slots)) (length slots) b unbound
        (lt-length-grow_to bs (length slots)),
  )
]

-- An environment as a map from symbols to bindings: what the program's callers rely on.
unfoldable pub view : World → ℕ → ℕ → Option Binding
view w e k = frame_view (shape_at w.table (env_at w e).shape).slots (env_at w e).bindings k

-- The environment `e` has a shape of the table, and a binding for each slot of that shape.
pub record Fits (w : World) (e : ℕ) : Type 0 where
  pub valid : IsValid w.table
  pub known : e < length w.envs
  pub shape : Shape
  pub at : get_elem? w.table.shapes (env_at w e).shape ≡ some shape
  pub stored : (k v : ℕ) → lookup k shape.slots ≡ some v → v < length (env_at w e).bindings

-- The numbers of 32 bits suffice for one more shape and one more slot.
pub record Room (w : World) (slots : List (ℕ × ℕ)) (k : ℕ) : Type 0 where
  pub symbol : k < u32_size
  pub shapes_room : length w.table.shapes < u32_size
  pub slots_room : length slots < u32_max

pub env_at-put_env :
    (w : World) (e : ℕ) (env : Environment) → e < length w.envs → env_at (put_env w e env) e ≡ env
env_at-put_env w e env h = get_or-set_self w.envs e env _ h

pub view_at :
    (u : World) (e : ℕ) (env : Environment) (s : Shape) (j : ℕ)
    → env_at u e ≡ env
    → get_elem? u.table.shapes env.shape ≡ some s
    → view u e j ≡ frame_view s.slots env.bindings j
unfolding view
view_at u e env s j a h = rw (a, shape_at-get_elem? u.table env.shape s h)

-- What `define` leaves behind, in terms of slots and bindings.
pub data Defines (w : World) (e k : ℕ) (x : Value) (slots : List (ℕ × ℕ)) : World → Type 0 where
  overwritten :
      {u : World} (n : ℕ)
      → lookup k slots ≡ some n
      → u ≡ put_env w e (record (env_at w e) { bindings = set (env_at w e).bindings n (defined x) })
      → Defines w e k x slots u
  extended :
      {u : World} (s : ℕ) (t : ShapeTable) (r : Shape)
      → lookup k slots ≡ none
      → IsValid t
      → get_elem? t.shapes s ≡ some r
      → r.slots ≡ add_slot k slots
      → u ≡ record {
        table = t;
        envs = set w.envs e (record (env_at w e) {
          shape = s;
          bindings = set (grow_to (env_at w e).bindings (length slots)) (length slots) (defined x);
        });
      }
      → Defines w e k x slots u

pub slot_of-add_slot :
    (r : Shape) (k : ℕ) (slots : List (ℕ × ℕ))
    → r.slots ≡ add_slot k slots
    → length slots < u32_size
    → slot_of r k ≡ length slots
unfolding slot_of add_slot
slot_of-add_slot r k slots e room = ground (
  arith,
  lookup-insert_self k (length slots % u32_size) slots,
  mod-eq_of_lt room,
  ap (lookup k) e,
)

module _ (w : World) (e : ℕ) (f : Fits w e) (k : ℕ) (x : Value) (m : Room w f.shape.slots k) where
  here : shape_at w.table (env_at w e).shape ≡ f.shape
  here = shape_at-get_elem? w.table (env_at w e).shape f.shape f.at

  can_add : CanAdd w.table (env_at w e).shape f.shape k
  can_add = record { at = f.at; symbol = m.symbol; room = m.shapes_room; slots_room = m.slots_room }

  define_present :
      slot_of f.shape k < u32_max
      → define w e k x
        ≡ put_env w e (record (env_at w e) {
          bindings = set (env_at w e).bindings (slot_of f.shape k) (defined x);
        })
  unfolding define own_slot
  define_present h = rw (here, ==_ne (slot_of f.shape k) u32_max (omega arith))

  define_absent :
      (t : ShapeTable) (s : ℕ) (r : Shape)
      → slot_of f.shape k ≡ u32_max
      → transition_add w.table (env_at w e).shape k ≡ (s, t)
      → get_elem? t.shapes s ≡ some r
      → slot_of r k ≡ length f.shape.slots
      → define w e k x ≡ record {
        table = t;
        envs = set w.envs e (record (env_at w e) {
          shape = s;
          bindings =
              set
                (grow_to (env_at w e).bindings (length f.shape.slots))
                (length f.shape.slots)
                (defined x);
        });
      }
  unfolding define define_new own_slot
  define_absent t s r a p g l = rw (here, a, p, shape_at-get_elem? t s r g, l)

  pub define-Defines : Defines w e k x f.shape.slots (define w e k x)
  define-Defines = elim (slot_of-lookup f.shape k (f.valid.bounded _ f.shape f.at k)) [
    | inl absent ↦
        let a = transition_add-IsAdded w.table _ f.shape k f.valid can_add in
        let slots_eq = a.shape_slots ∙ add-absent f.shape k absent.1 in
        let l = slot_of-add_slot a.shape k f.shape.slots slots_eq (omega (arith, m.slots_room)) in
        extended _ _ a.shape absent.1 a.valid a.shape_here slots_eq
          (define_absent _ _ a.shape absent.0 refl a.shape_here l)
    | inr present ↦ overwritten (slot_of f.shape k) present.1 (define_present present.0)
  ]

  -- In an environment that fits its dense shape, with room for one more shape and slot, defining a
  -- symbol binds that symbol to the value and leaves what every other symbol is bound to.
  pub view-define :
      IsDense f.shape.slots
      → (j : ℕ) → view (define w e k x) e j ≡ (if k == j then some (defined x) else view w e j)
  view-define d j = by_cases define-Defines
    where
      before :
          (if k == j then some (defined x) else frame_view f.shape.slots (env_at w e).bindings j)
          ≡ (if k == j then some (defined x) else view w e j)
      before = rw (view_at w e _ f.shape j refl f.at)

      by_cases :
          {u : World}
          → Defines w e k x f.shape.slots u
          → view u e j ≡ (if k == j then some (defined x) else view w e j)
      by_cases (overwritten n h eq) = rw eq (
          view_at (put_env w e _) e _ f.shape j (env_at-put_env w e _ f.known) f.at
          ∙ overwrite_view f.shape.slots (env_at w e).bindings k n j (defined x) d h
              (f.stored k n h)
          ∙ before)
      by_cases (extended s t r new valid at slots_eq eq) = rw eq (
          view_at _ e _ r j (get_or-set_self w.envs e _ _ f.known) at
          ∙ rw slots_eq (
              extend_view f.shape.slots (env_at w e).bindings k j (defined x) d new
                (omega (arith, m.slots_room)))
          ∙ before)
