-- ===== src/Feedback.antt =====
-- include/rjit/feedback/feedback.hpp, src/feedback/feedback.cpp: what the interpreter records for
-- the compiler. Counters are 64-bit words; the atomic operations are those of one thread. A
-- `void* callee` is a number, 0 for a null pointer.
pub mod Types
mod Tests
use r_sjit.Common.{
  ℕ, zero, suc, ◌+◌, ◌%◌, List, [], ◌∷◌, Option, none, some, Bool, true, false, not, get_or, set,
  replicate, ltb, ◌==◌, u64_size, if◌then◌else◌,
}
use r_sjit.Common.Maps.{lookup, insert, Key}
use r_sjit.Value.Tag.{TypeTag, tag_code}

-- `fetch_add(1)`
abbrev pub tick : ℕ → ℕ
tick n = (n + 1) % u64_size

-- `struct TypeFeedback`
pub record TypeFeedback : Type 0 where
  pub counts : List ℕ
  pub total : ℕ
  pub last_tag : ℕ

abbrev pub no_types : TypeFeedback
no_types = record { counts = replicate 16 0; total = 0; last_tag = 0 }

-- `TypeFeedback::record`
unfoldable pub record_type : TypeTag → TypeFeedback → TypeFeedback
record_type t f =
    let i : ℕ = tag_code t % 16 in
    record {
      counts = set f.counts i (tick (get_or f.counts i 0));
      total = tick f.total;
      last_tag = tag_code t;
    }

-- The loop of `TypeFeedback::dominant`: the counts from index `i` on, the best index and its count.
unfoldable pub scan_counts : List ℕ → ℕ → ℕ → ℕ → ℕ
scan_counts [] i best best_count = best
scan_counts (c ∷ cs) i best best_count =
    let better = ltb best_count c in
    scan_counts cs (suc i) (if better then i else best) (if better then c else best_count)

-- `TypeFeedback::dominant`, as the number that is cast to a tag.
unfoldable pub dominant : TypeFeedback → ℕ
dominant f = scan_counts f.counts 0 0 0

-- `struct ShapeFeedback`
pub record ShapeFeedback : Type 0 where
  pub last_shape : ℕ
  pub total : ℕ
  pub distinct : ℕ

unfoldable pub record_shape : ℕ → ShapeFeedback → ShapeFeedback
record_shape shape_id f = record {
  last_shape = shape_id;
  total = tick f.total;
  distinct = if f.last_shape == shape_id then f.distinct else tick f.distinct;
}

-- `struct CallFeedback::Entry`
pub record Entry : Type 0 where
  pub callee : ℕ
  pub count : ℕ

-- `struct CallFeedback`
pub record CallFeedback : Type 0 where
  pub entries : List Entry
  pub total : ℕ
  pub megamorphic : Bool

-- kMaxCallees
abbrev pub max_callees : ℕ
max_callees = 4

abbrev pub no_calls : CallFeedback
no_calls = record {
  entries = replicate max_callees (record { callee = 0; count = 0 });
  total = 0;
  megamorphic = false;
}

-- The loop of `CallFeedback::record`: the entries afterwards, and whether it returned from within.
unfoldable pub record_entry : ℕ → List Entry → List Entry × Bool
record_entry callee [] = ([], false)
record_entry callee (x ∷ xs) =
    let rest = record_entry callee xs in
    if x.callee == callee
    then (record x { count = tick x.count } ∷ xs, true)
    else if x.callee == 0
    then (record { callee = callee; count = tick x.count } ∷ xs, true)
    else (x ∷ rest.0, rest.1)

-- `CallFeedback::record`
unfoldable pub record_call : ℕ → CallFeedback → CallFeedback
record_call callee f =
    let r = record_entry callee f.entries in
    record {
      entries = r.0;
      total = tick f.total;
      megamorphic = if r.1 then f.megamorphic else true;
    }

-- `struct BranchFeedback`
pub record BranchFeedback : Type 0 where
  pub taken : ℕ
  pub not_taken : ℕ

unfoldable pub record_branch : Bool → BranchFeedback → BranchFeedback
record_branch did_take f =
    if did_take
    then record f { taken = tick f.taken }
    else record f { not_taken = tick f.not_taken }

-- `struct LengthFeedback`
pub record LengthFeedback : Type 0 where
  pub last_length : ℕ
  pub total : ℕ
  pub always_one : Bool
  pub always_small : Bool

abbrev pub no_lengths : LengthFeedback
no_lengths = record { last_length = 0; total = 0; always_one = true; always_small = true }

unfoldable pub record_length : ℕ → LengthFeedback → LengthFeedback
record_length len f = record {
  last_length = len;
  total = tick f.total;
  always_one = if not (len == 1) then false else f.always_one;
  always_small = if ltb 64 len then false else f.always_small;
}

-- `struct AllocFeedback`
pub record AllocFeedback : Type 0 where
  pub total : ℕ
  pub escapes : ℕ
  pub never_escapes : Bool

abbrev pub no_allocs : AllocFeedback
no_allocs = record { total = 0; escapes = 0; never_escapes = true }

unfoldable pub record_alloc : Bool → AllocFeedback → AllocFeedback
record_alloc did_escape f =
    if did_escape
    then record { total = tick f.total; escapes = tick f.escapes; never_escapes = false }
    else record f { total = tick f.total }

-- The tables of FeedbackEngine. `fetch` is the `operator[]` of a map, or a `find` with an `emplace`
-- of the first value: the value at a key, and the table in which the key has a value.
module _ {K : Type 0} {V : Type 0} ⦃e : Key K⦄ where
  unfoldable pub fetch : K → V → List (K × V) → V × List (K × V)
  fetch k first m = elim (lookup k m) [ some v ↦ (v, m) | none ↦ (first, insert k first m) ]
