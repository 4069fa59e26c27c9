-- ===== src/Attributes/Update.antt =====
-- `set` and `remove` of the attributes (src/core/attributes.cpp) against `get`.
use native.Mathlib.Decide.{dec_lt}
use r_sjit.Common.{
  ℕ, suc, ◌<◌, ◌≤◌, ◌≡◌, ◌≢◌, ap, sym, ◌∙◌, none, some, length, get_or, set, grow, arith,
  length-set, length-grow, get_or-set_self, get_or-set_ne, get_or-grow, inl, inr,
}
use r_sjit.Value.{Value, nil}
use r_sjit.Attributes.{Attributes, get, put, put_found, room}
use r_sjit.Attributes.Laws.{IsValid, get_at, entry_cases, get-agree}

-- What an update of one symbol promises.
pub record Updates (s : ℕ) (v : Value) (a b : Attributes) : Type 0 where
  pub valid : IsValid b
  pub here : get s b ≡ v
  pub elsewhere : (t : ℕ) → t ≢ s → get t b ≡ get t a

put_old :
    (s : ℕ) (v : Value) (a : Attributes) (i : ℕ)
    → IsValid a
    → i < a.count
    → get_or a.names i 0 ≡ s
    → Updates s v a (put_found s v a (some i))
unfolding put_found
put_old s v a i h l n =
    let b : Attributes = record { names = a.names; values = set a.values i v; count = a.count } in
    let valid : IsValid b = record {
      parallel = length-set a.values i v ∙ h.parallel;
      within = h.within;
      unique = h.unique;
    } in
    record {
      valid = valid;
      here =
          ap (λ (x : ℕ). get x b) (sym n)
          ∙ get_at b i valid l
          ∙ get_or-set_self a.values i v nil (omega (arith, l, h.within, h.parallel));
      elsewhere = λ t d.
          get-agree a b t h valid
            (λ j m o. (
              j,
              m,
              o,
              get_or-set_ne a.values i j v nil
                  (λ e. d (sym o ∙ ap (λ (x : ℕ). get_or a.names x 0) (sym e) ∙ n)),
            ))
            (λ j m o. (j, m, o));
    }

abbrev Unique : (ℕ → ℕ) → ℕ → Type 0
Unique f n = (i j : ℕ) → i < n → j < n → f i ≡ f j → i ≡ j

-- A name that is new stays unique at the end.
Unique-snoc :
    (f g : ℕ → ℕ) (n s : ℕ)
    → g n ≡ s
    → ((i : ℕ) → i < n → g i ≡ f i)
    → ((i : ℕ) → i < n → f i ≢ s)
    → Unique f n
    → Unique g (suc n)
Unique-snoc f g n s last old lacks u i j li lj e = elim (dec_lt i n) [
  | yes p ↦ elim (dec_lt j n) [
    | yes q ↦ u i j p q (sym (old i p) ∙ e ∙ old j q)
    | no q ↦ absurd (lacks i p (sym (old i p) ∙ e ∙ ap g (omega arith) ∙ last))
  ]
  | no p ↦ elim (dec_lt j n) [
    | yes q ↦ absurd (lacks j q (sym (old j q) ∙ sym e ∙ ap g (omega arith) ∙ last))
    | no q ↦ omega arith
  ]
]

room_enough : (a : Attributes) → IsValid a → (a.count < room a) × (length a.names ≤ room a)
unfolding room
room_enough a h = ground (arith, h.within)

put_new :
    (s : ℕ) (v : Value) (a : Attributes)
    → IsValid a
    → ((i : ℕ) → i < a.count → get_or a.names i 0 ≢ s)
    → Updates s v a (put_found s v a none)
unfolding put_found
put_new s v a h lacks =
    let ns = grow a.names (room a) 0 in
    let vs = grow a.values (room a) nil in
    let b : Attributes = record {
      names = set ns a.count s;
      values = set vs a.count v;
      count = suc a.count;
    } in
    let size : length ns ≡ room a =
      omega (arith, length-grow a.names (room a) 0, room_enough a h) in
    let sizes : length vs ≡ room a =
      omega (arith, length-grow a.values (room a) nil, room_enough a h, h.parallel) in
    let new_name : get_or b.names a.count 0 ≡ s =
      get_or-set_self ns a.count s 0 (omega (arith, size, room_enough a h)) in
    let old_name : (i : ℕ) → i < a.count → get_or b.names i 0 ≡ get_or a.names i 0 =
      λ i l. get_or-set_ne ns a.count i s 0 (omega (arith, l)) ∙ get_or-grow a.names (room a) i 0 in
    let valid : IsValid b = record {
      parallel = omega (arith, length-set vs a.count v, length-set ns a.count s, size, sizes);
      within = omega (arith, length-set ns a.count s, size, room_enough a h);
      unique =
          Unique-snoc (λ i. get_or a.names i 0) (λ i. get_or b.names i 0) a.count s new_name
            old_name lacks h.unique;
    } in
    record {
      valid = valid;
      here =
          ap (λ (x : ℕ). get x b) (sym new_name)
          ∙ get_at b a.count valid (omega arith)
          ∙ get_or-set_self vs a.count v nil (omega (arith, sizes, room_enough a h));
      elsewhere = λ t d.
          get-agree a b t h valid
            (λ j m o. (
              j,
              omega (arith, m),
              old_name j m ∙ o,
              get_or-set_ne vs a.count j v nil (omega (arith, m))
                  ∙ get_or-grow a.values (room a) j nil,
            ))
            (λ j m o. elim (dec_lt j a.count) [
              | yes p ↦ (j, p, sym (old_name j p) ∙ o)
              | no p ↦
                  absurd (d (sym o ∙ ap (λ (x : ℕ). get_or b.names x 0) (omega arith) ∙ new_name))
            ]);
    }

-- On valid attributes, setting a symbol gives valid attributes in which that symbol has the value
-- and every other symbol has what it had.
pub put-Updates : (s : ℕ) (v : Value) (a : Attributes) → IsValid a → Updates s v a (put s v a)
unfolding put
put-Updates s v a h = elim (entry_cases a s h) [
  | inl (i, e, l, n) ↦ rw (e) (put_old s v a i h l n)
  | inr (e, lacks) ↦ rw (e) (put_new s v a h lacks)
]
