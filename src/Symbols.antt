-- ===== src/Symbols.antt =====
-- src/core/context.cpp, include/rjit/core/context.hpp: the interned symbol names.
pub mod Laws
mod Tests
use Prim.Native.String.{String}
use r_sjit.Common.{
  ℕ, ◌≡◌, ◌+◌, ◌%◌, List, [], ◌∷◌, ◌++◌, Option, none, some, Bool, ltb, length, get_or, u32_size,
  if◌then◌else◌,
}
use r_sjit.Common.Maps.{lookup, insert, string_key}

-- `class SymbolTable`
pub record SymbolTable : Type 0 where
  pub ids : List (String × ℕ)
  pub names : List String

-- The id of a name, and the table afterwards. An id is a `uint32_t`.
unfoldable pub intern : String → SymbolTable → ℕ × SymbolTable
intern name t = elim (lookup name t.ids) [
  | some id ↦ (id, t)
  | none ↦
      let id = length t.names % u32_size in
      (id, record { ids = insert name id t.ids; names = t.names ++ name ∷ [] })
]

-- The empty text is returned for an unknown id.
unfoldable pub name_of : ℕ → SymbolTable → String
name_of id t = if ltb id (length t.names) then get_or t.names id "" else ""

unfoldable pub intern_all : List String → SymbolTable → SymbolTable
unfolding intern
intern_all [] t = t
intern_all (s ∷ ss) t = intern_all ss (intern s t).1

abbrev pub no_symbols : SymbolTable
no_symbols = record { ids = []; names = [] }

-- The names that the constructor interns, in its order.
abbrev pub common_symbols : List String
common_symbols =
    "nil" ∷ "TRUE" ∷ "FALSE" ∷ "NA" ∷ "T" ∷ "F" ∷ "+" ∷ "-" ∷ "*" ∷ "/" ∷ "^" ∷ "<" ∷ ">" ∷ "<="
    ∷ ">=" ∷ "==" ∷ "!=" ∷ "&" ∷ "|" ∷ "!" ∷ ":" ∷ "c" ∷ "list" ∷ "function" ∷ "if" ∷ "else" ∷ "for"
    ∷ "while" ∷ "repeat" ∷ "break" ∷ "next" ∷ "return" ∷ "in" ∷ "quote" ∷ "substitute" ∷ "missing"
    ∷ "<-" ∷ "<<-" ∷ "=" ∷ "->" ∷ "->>" ∷ "$" ∷ "@" ∷ "[" ∷ "]" ∷ "[[" ∷ "]]" ∷ "length" ∷ "sum"
    ∷ "mean" ∷ "min" ∷ "max" ∷ "sapply" ∷ "lapply" ∷ "print" ∷ "cat" ∷ "paste" ∷ "seq" ∷ "seq_along"
    ∷ "seq_len" ∷ []

-- The constructor of SymbolTable.
unfoldable pub init : SymbolTable
unfolding intern_all
init = intern_all common_symbols no_symbols
