-- ===== src/Attributes/Tests.antt =====
-- The attributes (src/core/attributes.cpp) at concrete inputs.
use r_sjit.Value.{real}
use r_sjit.Attributes.{no_attributes, put}
use r_sjit.Attributes.Laws.{no_attributes-IsValid}
use r_sjit.Attributes.Update.{Updates, put-Updates}

first : Updates 3 (real 1) no_attributes (put 3 (real 1) no_attributes)
first = put-Updates 3 (real 1) no_attributes no_attributes-IsValid

put-Updates_example :
    Updates 4
      (real 2)
      (put 3 (real 1) no_attributes)
      (put 4 (real 2) (put 3 (real 1) no_attributes))
put-Updates_example = put-Updates 4 (real 2) (put 3 (real 1) no_attributes) first.valid
