-- ===== src/Attributes.antt =====
-- src/core/attributes.cpp, include/rjit/core/attributes.hpp: the attributes of an object, in two arrays.
pub mod Laws
pub mod Update
mod Tests
use r_sjit.Common.{
  ℕ, zero, suc, ◌-◌, ◌*◌, Bool, true, false, ◌==◌, List, [], ◌∷◌, ◌++◌, Option, none, some,
  if◌then◌else◌, length, get_or, set, grow, ltb,
}
use r_sjit.Value.{Value, nil, is_heap}

-- `class Attributes`
pub record Attributes : Type 0 where
  pub names : List ℕ
  pub values : List Value
  pub count : ℕ

abbrev pub no_attributes : Attributes
no_attributes = record { names = []; values = []; count = 0 }

unfoldable pub next_index : Option ℕ → Option ℕ
next_index none = none
next_index (some i) = some (suc i)

-- The loop that each operation begins with: the first index below the count with the name.
unfoldable pub index_of : ℕ → List ℕ → ℕ → Option ℕ
index_of zero names sym = none
index_of (suc n) [] sym = none
index_of (suc n) (x ∷ xs) sym =
    let rest = next_index (index_of n xs sym) in if x == sym then some 0 else rest

unfoldable pub get_found : Attributes → Option ℕ → Value
get_found a none = nil
get_found a (some i) = get_or a.values i nil

-- `Attributes::get`
unfoldable pub get : ℕ → Attributes → Value
get sym a = get_found a (index_of a.count a.names sym)

-- The arrays are doubled when they are full.
unfoldable pub room : Attributes → ℕ
room a =
    if a.count == length a.names
    then (if length a.names == 0 then 4 else length a.names * 2)
    else length a.names

unfoldable pub put_found : ℕ → Value → Attributes → Option ℕ → Attributes
put_found sym v a (some i) = record { names = a.names; values = set a.values i v; count = a.count }
put_found sym v a none = record {
  names = set (grow a.names (room a) 0) a.count sym;
  values = set (grow a.values (room a) nil) a.count v;
  count = suc a.count;
}

-- `Attributes::set`
unfoldable pub put : ℕ → Value → Attributes → Attributes
put sym v a = put_found sym v a (index_of a.count a.names sym)

-- The last entry takes the place of the one that is removed.
unfoldable pub remove_found : Attributes → Option ℕ → Attributes × Bool
remove_found a none = (a, false)
remove_found a (some i) = (
  record {
    names = set a.names i (get_or a.names (a.count - 1) 0);
    values = set a.values i (get_or a.values (a.count - 1) nil);
    count = a.count - 1;
  },
  true,
)

-- `Attributes::remove`
unfoldable pub remove : ℕ → Attributes → Attributes × Bool
remove sym a = remove_found a (index_of a.count a.names sym)

-- `Attributes::next`: the next cursor, the symbol and the value, while there is one.
unfoldable pub next : ℕ → Attributes → Option (ℕ × ℕ × Value)
next cursor a =
    if ltb cursor a.count
    then some (suc cursor, get_or a.names cursor 0, get_or a.values cursor nil)
    else none
