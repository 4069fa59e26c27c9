-- ===== src/Symbols/Tests.antt =====
-- Runs of the symbol table (src/core/context.cpp).
use Prim.Native.String.{String}
use r_sjit.Common.{◌≡◌, ℕ, refl, length, some, arith}
use r_sjit.Common.Maps.{lookup, insert, string_key}
use r_sjit.Symbols.{intern, name_of, init, no_symbols}
use r_sjit.Symbols.Laws.{IsValid, no_symbols-IsValid, intern_lem}

-- "c" has the id that the program's comment fixes by its order.
init_c : (intern "c" init).0 ≡ 21
unfolding init intern lookup insert
init_c = refl

init_size : length init.names ≡ 60
unfolding init intern lookup insert
init_size = refl

intern_lem_example :
    IsValid (intern "x" no_symbols).1
    × (lookup "x" (intern "x" no_symbols).1.ids ≡ some (intern "x" no_symbols).0)
    × (name_of (intern "x" no_symbols).0 (intern "x" no_symbols).1 ≡ "x")
    × ((r : String) (i : ℕ)
        → lookup r no_symbols.ids ≡ some i
        → lookup r (intern "x" no_symbols).1.ids ≡ some i)
intern_lem_example = intern_lem "x" no_symbols no_symbols-IsValid (omega arith)

abbrev x_name : String
x_name = "x"
