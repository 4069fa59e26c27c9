-- ===== src/FrontEnd/Tests.antt =====
-- The front end (src/cli/main.cpp) at concrete inputs.
use r_sjit.Common.{ℕ, ◌≢◌, List}
use r_sjit.Lexer.Tokens.{codes}
use r_sjit.FrontEnd.{parse_source, endless}
use r_sjit.FrontEnd.Whole.{parse_source-terminates}

abbrev no_numbers : List ℕ → ℕ
no_numbers text = 0

parse_source-terminates_example : parse_source no_numbers (codes "if (x) { f(y, -1) }") ≢ endless
parse_source-terminates_example = parse_source-terminates no_numbers (codes "if (x) { f(y, -1) }")
