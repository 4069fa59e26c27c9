-- ===== src/Common/Maps.antt =====
-- Association lists, for `std::unordered_map`, over any type of keys with a Boolean equality.
use mathlib.Core.Bool.{Bool, true}
use mathlib.Core.List.{List, [], ◌∷◌}
use mathlib.Core.Logic.{◌↔◌, ◌≢◌}
use text.Mathlib.TextEquality.{eq_iff}
use mathlib.Core.Option.{Option, none, some}
use native.Mathlib.Omega.{arith}
use Prim.Native.Nat.{ℕ, suc}
use mathlib.Core.Path.{◌≡◌, refl}
use text.Mathlib.Text.{◌==◌ as same_text}
use r_sjit.Common.Lists.{length}
use Prim.Native.String.{String}
use r_sjit.Common.Tests.{if◌then◌else◌, ◌==◌ as same_number, ==_iff}

-- What a hash map asks of its keys.
pub record Key {ℓ} (K : Type ℓ) : Type ℓ where
  pub same_key : K → K → Bool
  pub same_key_iff : (j k : K) → (same_key j k ≡ true) ↔ (j ≡ k)

instance abbrev pub string_key : Key String
string_key = record { same_key = same_text; same_key_iff = eq_iff }

instance abbrev pub nat_key : Key ℕ
nat_key = record { same_key = same_number; same_key_iff = ==_iff }

infix 50 ◌==◌
abbrev pub ◌==◌ {ℓ} : {K : Type ℓ} ⦃keys : Key K⦄ → K → K → Bool
◌==◌ ⦃keys = keys⦄ j k = keys.same_key j k

module _ {ℓ κ} {K : Type ℓ} {V : Type κ} ⦃keys : Key K⦄ where
  unfoldable pub lookup : K → List (K × V) → Option V
  lookup a [] = none
  lookup a ((b, x) ∷ es) = if b == a then some x else lookup a es

  unfoldable pub insert : K → V → List (K × V) → List (K × V)
  insert a x [] = (a, x) ∷ []
  insert a x ((b, y) ∷ es) = if b == a then (a, x) ∷ es else (b, y) ∷ insert a x es

  unfoldable pub erase : K → List (K × V) → List (K × V)
  erase a [] = []
  erase a ((b, y) ∷ es) = let rest = erase a es in if b == a then rest else (b, y) ∷ rest

  pub lookup-insert :
      (a b : K) (x : V) (es : List (K × V))
      → lookup b (insert a x es) ≡ (if a == b then some x else lookup b es)
  unfolding lookup insert
  lookup-insert a b x [] = refl
  lookup-insert a b x ((c, y) ∷ es) = ground (
    arith,
    keys.same_key_iff a b,
    keys.same_key_iff c a,
    keys.same_key_iff c b,
    lookup-insert a b x es,
  )

  pub lookup-erase :
      (a b : K) (es : List (K × V)) → lookup b (erase a es) ≡ (if a == b then none else lookup b es)
  unfolding lookup erase
  lookup-erase a b [] = ground arith
  lookup-erase a b ((c, y) ∷ es) = ground (
    arith,
    keys.same_key_iff a b,
    keys.same_key_iff c a,
    keys.same_key_iff c b,
    lookup-erase a b es,
  )

  pub lookup-insert_self : (a : K) (x : V) (es : List (K × V)) → lookup a (insert a x es) ≡ some x
  lookup-insert_self a x es = ground (arith, lookup-insert a a x es, keys.same_key_iff a a)

  pub lookup-insert_ne :
      (a b : K) (x : V) (es : List (K × V)) → a ≢ b → lookup b (insert a x es) ≡ lookup b es
  lookup-insert_ne a b x es h = ground (arith, lookup-insert a b x es, keys.same_key_iff a b)

  pub length-insert_new :
      (a : K) (x : V) (es : List (K × V))
      → lookup a es ≡ none
      → length (insert a x es) ≡ suc (length es)
  unfolding lookup insert
  length-insert_new a x [] h = refl
  length-insert_new a x ((b, y) ∷ es) h = ground (arith, length-insert_new a x es)

  pub length-erase_absent :
      (a : K) (es : List (K × V)) → lookup a es ≡ none → length (erase a es) ≡ length es
  unfolding lookup erase
  length-erase_absent a [] h = refl
  length-erase_absent a ((b, y) ∷ es) h = ground (arith, length-erase_absent a es)

  pub length-erase-insert :
      (a b : K) (x : V) (es : List (K × V))
      → lookup a es ≡ none
      → length (erase b (insert a x es)) ≡ (if a == b then length es else suc (length (erase b es)))
  unfolding lookup erase insert
  length-erase-insert a b x [] h = ground arith
  length-erase-insert a b x ((c, y) ∷ es) h = ground (
    arith,
    keys.same_key_iff a b,
    keys.same_key_iff c a,
    keys.same_key_iff c b,
    length-erase-insert a b x es,
    length-erase_absent b es,
  )
