-- ===== src/Lib.antt =====
-- R-SJIT: a model of the core of a multi-tier virtual machine for R.
--
-- The program compiles R source to a register bytecode (src/frontend, src/bytecode), which an
-- interpreter (src/vm) runs on tagged values, environments with hidden classes and promises
-- (src/core). The interpreter records feedback (src/feedback), rewrites opcodes by it (quickening),
-- and asks a tier manager which functions to compile (src/jit). An optimizer (src/ir, src/optimizer)
-- works on a graph of nodes, and a collector (src/core/gc.cpp) frees the objects that nothing reaches.
--
-- Files, with the code that each is about:
--   Common             numbers, lists, maps and integers that the other files share
--   Value              include/rjit/core/value.hpp, src/core/value.cpp: tags, boxing, is_na
--   Lexer              src/frontend/lexer.cpp: Lexer.Place is the cursor, Lexer.Scan, Words and
--                      Operators are the lex_ functions
--   Parser             src/frontend/parser.cpp, include/rjit/frontend/ast.hpp (Parser.Tree)
--   FrontEnd           src/cli/main.cpp: the lexer and then the parser
--   Vectors            src/core/vector.cpp
--   Symbols            src/core/context.cpp: SymbolTable::intern and name_of
--   Env                src/core/environment.cpp: Shape, ShapeTable (Env.Shapes, Env.Table) and
--                      Environment; Env.Cache is the LOAD_VAR case of src/vm/interpreter.cpp
--   Bytecode, Builder  include/rjit/bytecode/opcodes.hpp, src/bytecode/module.cpp
--   Arith              src/vm/interpreter.cpp: add_values to div_values on scalars
--   Machine            src/vm/interpreter.cpp: comparison, truth and the dispatch loop on registers
--                      and jumps (Machine.Step); the frames of calls (Machine.Frames)
--   Quickening         src/vm/quickening.cpp
--   Feedback           include/rjit/feedback/feedback.hpp, src/feedback/feedback.cpp
--   Tiers              src/jit/tier_manager.cpp
--   Deopt              src/jit/deopt.cpp
--   Promises           src/core/promise.cpp
--   Attributes         src/core/attributes.cpp
--   Gc                 src/core/gc.cpp, include/rjit/core/gc.hpp
--   Ir                 src/ir/types.cpp, src/ir/sea_of_nodes.cpp; Ir.Passes and Ir.Reduce are
--                      src/optimizer/passes.cpp, escape.cpp and pea.cpp
--
-- State is passed explicitly. A pointer is a number or an index: environments and shapes are
-- indices of lists, nodes of the graph are their ids, heap objects are numbers with 0 for null.
-- Words of w bits wrap around by `% 2 ^ w`. A double is the number of its bits, and what the
-- processor computes on doubles is the parameter `Float`. `force_if_promise` is a parameter of
-- the lookup, the interpreter one of the promises, forcing one of the frames, the `trace`
-- methods one of the collector, and `strtod` one of the lexer.
--
-- Fuel: the lookup in a chain of environments takes one unit for each environment, and parents have
-- smaller indices; marking takes one for each root and one for each reference of a white object;
-- `dce` takes a round for each node and one more, since a round that is not the last removes a node.
-- The lexer's loops have a unit for each byte and the parser's for each token, since every round
-- takes one; expressions nest by fuel above the number of the tokens that are left.
-- `sccp` has fuel because its loop need not end.
--
-- A node that `remove_node` freed is blank in the model; the source must not use it again. An
-- instruction that writes a register outside of its frame ends the model's run.
--
-- Not modelled: the lowering; variables, indexing, the choice of the callee and the environment of a
-- call in the dispatch loop, and the ends of its two arenas; the arithmetic on vectors, the
-- primitives and the graph builder; the machine code of the compilers; printing and the command
-- line; more than one thread.
pub mod Common
pub mod Value
pub mod Symbols
pub mod Env
pub mod Bytecode
pub mod Quickening
pub mod Feedback
pub mod Tiers
pub mod Ir
pub mod Gc
pub mod Attributes
pub mod Promises
pub mod Lexer
pub mod Vectors
pub mod Parser
pub mod FrontEnd
pub mod Machine
pub mod Builder
pub mod Deopt
pub mod Arith
