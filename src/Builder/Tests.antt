-- ===== src/Builder/Tests.antt =====
-- The builder of bytecode (src/bytecode/module.cpp) at concrete inputs.
use r_sjit.Common.{◌≡◌, ◌≤◌, true, length, arith}
use r_sjit.Builder.{no_code, ends_with_halt, finalize}
use r_sjit.Builder.Laws.{finalize-lem}

finalize-lem_example :
    (ends_with_halt (finalize 1 2 no_code).code ≡ true)
    × (no_code.nregs ≤ (finalize 1 2 no_code).nregs)
    × (2 ≤ (finalize 1 2 no_code).nregs)
    × (length (finalize 1 2 no_code).ic_envs ≡ length (finalize 1 2 no_code).code)
    × (length (finalize 1 2 no_code).ic_shapes ≡ length (finalize 1 2 no_code).code)
    × (length (finalize 1 2 no_code).ic_slots ≡ length (finalize 1 2 no_code).code)
finalize-lem_example = finalize-lem 1 2 no_code (omega arith) (omega arith) (omega arith)
