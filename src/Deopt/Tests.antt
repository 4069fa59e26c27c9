-- ===== src/Deopt/Tests.antt =====
-- Deoptimization (src/jit/deopt.cpp) at concrete inputs.
use r_sjit.Common.{ℕ, ◌*◌, ◌+◌, ◌≡◌, List, [], ◌∷◌, some, arith}
use r_sjit.Value.{Value, real, nil}
use r_sjit.Deopt.{DeoptValue, DeoptValueKind, DeoptContext, alloc_blob, materialize}
use r_sjit.Deopt.Blobs.{add_values, frame_of, materialize-add_values}

abbrev no_blobs : DeoptContext
no_blobs = record { blobs = []; value_pool = [] }

-- A constant for register 1, an input for register 0, and the slot 2 of the environment.
abbrev three_entries : List DeoptValue
three_entries =
    record { kind = DeoptValueKind.constant; env_slot = 1; constant_value = real 4 }
    ∷ record { kind = DeoptValueKind.register; env_slot = 0; constant_value = nil }
    ∷ record { kind = DeoptValueKind.env_slot; env_slot = 2; constant_value = nil }
    ∷ []

-- Every function has three registers, and a slot holds a number of its own.
abbrev three_registers : ℕ → ℕ
three_registers fn = 3

abbrev slot_numbers : ℕ → ℕ → Value
slot_numbers env slot = real (10 * env + slot)

materialize-add_values_example :
    materialize three_registers slot_numbers
      (alloc_blob 5 7 0 6 no_blobs).0
      (real 9 ∷ [])
      (add_values (alloc_blob 5 7 0 6 no_blobs).0 three_entries (alloc_blob 5 7 0 6 no_blobs).1)
    ≡ some (frame_of three_registers slot_numbers 5 7 6 three_entries (real 9 ∷ []))
materialize-add_values_example =
    materialize-add_values three_registers slot_numbers 5 7 0 6 three_entries (real 9 ∷ []) no_blobs
      (omega arith) (omega arith)
