-- ===== src/Symbols/Laws.antt =====
-- Interning gives each name one id for the life of the table (src/core/context.cpp).
use Prim.Native.String.{String}
use native.Mathlib.Nat.{mod-eq_of_lt}
use text.Mathlib.TextEquality.{eq_iff}
use r_sjit.Common.{
  ℕ, suc, ◌≡◌, ◌<◌, ◌≤◌, [], ◌∷◌, ◌++◌, none, some, arith, length, get_elem?, u32_size,
  Option-cases, get_elem?-append_last, get_elem?-append_left, get_elem?-append_cases,
  get_or-of_get_elem?, inl, inr, lt→ltb, get_elem?-lt_length, length-append, ap,
}
use r_sjit.Common.Maps.{lookup, insert, string_key, lookup-insert, lookup-insert_self}
use r_sjit.Symbols.{SymbolTable, intern, name_of, no_symbols}

-- The two halves of the table agree.
pub record IsValid (t : SymbolTable) : Type 0 where
  pub named : (s : String) (i : ℕ) → lookup s t.ids ≡ some i → get_elem? t.names i ≡ some s
  pub known : (s : String) (i : ℕ) → get_elem? t.names i ≡ some s → lookup s t.ids ≡ some i

-- A table that holds fewer names than a `uint32_t` counts.
abbrev pub HasRoom : SymbolTable → Type 0
HasRoom t = length t.names < u32_size

pub no_symbols-IsValid : IsValid no_symbols
unfolding lookup
no_symbols-IsValid = record { named = λ s i h. cc; known = λ s i h. cc }

-- The table that `intern` makes for a name that it does not hold.
abbrev extended : String → SymbolTable → SymbolTable
extended s t = record { ids = insert s (length t.names) t.ids; names = t.names ++ s ∷ [] }

pub intern_old :
    (s : String) (t : SymbolTable) (i : ℕ) → lookup s t.ids ≡ some i → intern s t ≡ (i, t)
unfolding intern
intern_old s t i h = rw (h, intern)

pub intern_new :
    (s : String) (t : SymbolTable)
    → HasRoom t
    → lookup s t.ids ≡ none
    → intern s t ≡ (length t.names, extended s t)
unfolding intern
intern_new s t room h = rw (h, intern, mod-eq_of_lt room)

extended-IsValid :
    (s : String) (t : SymbolTable) → IsValid t → lookup s t.ids ≡ none → IsValid (extended s t)
extended-IsValid s t v new = record {
  named = λ r i h. elim (Option-cases (lookup r t.ids)) [
    | inl e ↦ named_new r i h e
    | inr (j, e) ↦ named_old r i j h e
  ];
  known = λ r i h. elim (get_elem?-append_cases t.names s r i h) [
    | inl old ↦ known_old r i old
    | inr e ↦ rw (← e.1, e.0) (lookup-insert_self s (length t.names) t.ids)
  ];
}
  where
    named_old :
        (r : String) (i j : ℕ)
        → lookup r (insert s (length t.names) t.ids) ≡ some i
        → lookup r t.ids ≡ some j
        → get_elem? (t.names ++ s ∷ []) i ≡ some r
    named_old r i j h e =
        get_elem?-append_left t.names (s ∷ []) i r
          (v.named r i (ground (arith, lookup-insert s r (length t.names) t.ids, eq_iff s r)))

    named_new :
        (r : String) (i : ℕ)
        → lookup r (insert s (length t.names) t.ids) ≡ some i
        → lookup r t.ids ≡ none
        → get_elem? (t.names ++ s ∷ []) i ≡ some r
    named_new r i h e = ground (
      arith,
      lookup-insert s r (length t.names) t.ids,
      eq_iff s r,
      get_elem?-append_last t.names s,
    )

    known_old :
        (r : String) (i : ℕ)
        → get_elem? t.names i ≡ some r
        → lookup r (insert s (length t.names) t.ids) ≡ some i
    known_old r i old =
        ground (arith, lookup-insert s r (length t.names) t.ids, eq_iff s r, v.known r i old)

pub name_of-get_elem? :
    (t : SymbolTable) (i : ℕ) (s : String) → get_elem? t.names i ≡ some s → name_of i t ≡ s
unfolding name_of
name_of-get_elem? t i s h =
    rw (lt→ltb _ _ (get_elem?-lt_length t.names i s h)) (get_or-of_get_elem? t.names i s "" h)

-- In a valid table with room, interning a name keeps the table valid, gives it an id that reads
-- back as the name, and leaves every id that was given.
pub intern_lem :
    (s : String) (t : SymbolTable)
    → IsValid t
    → HasRoom t
    → IsValid (intern s t).1
      × (lookup s (intern s t).1.ids ≡ some (intern s t).0)
      × (name_of (intern s t).0 (intern s t).1 ≡ s)
      × ((r : String) (i : ℕ) → lookup r t.ids ≡ some i → lookup r (intern s t).1.ids ≡ some i)
intern_lem s t v room = elim (Option-cases (lookup s t.ids)) [
  | inl e ↦ rw (intern_new s t room e) (
    extended-IsValid s t v e,
    lookup-insert_self s (length t.names) t.ids,
    name_of-get_elem? (extended s t) _ s (get_elem?-append_last t.names s),
    λ r i h. ground (arith, lookup-insert s r (length t.names) t.ids, eq_iff s r),
  )
  | inr (i, e) ↦ rw (intern_old s t i e) (v, e, name_of-get_elem? t i s (v.named s i e), λ r j h. h)
]

length-intern : (s : String) (t : SymbolTable) → length (intern s t).1.names ≤ suc (length t.names)
unfolding intern
length-intern s t = ground (arith, length-append t.names (s ∷ []))

same_name :
    (r s : String) (t : SymbolTable) (i j : ℕ)
    → IsValid t
    → lookup r t.ids ≡ some i
    → lookup s t.ids ≡ some j
    → i ≡ j
    → r ≡ s
same_name r s t i j v hr hs e = cc (v.named r i hr, ap (get_elem? t.names) e, v.named s j hs)

-- In a valid table with room for two names, two names that are interned one after the other and
-- get the same id are the same.
pub intern-injective :
    (r s : String) (t : SymbolTable)
    → IsValid t
    → suc (length t.names) < u32_size
    → (intern r t).0 ≡ (intern s (intern r t).1).0
    → r ≡ s
intern-injective r s t v room e =
    let a = intern_lem r t v (omega arith) in
    let b = intern_lem s (intern r t).1 a.0 (omega (arith, length-intern r t)) in
    same_name r s (intern s (intern r t).1).1 _ _ b.0 (b.3 r _ a.1) b.1 e
