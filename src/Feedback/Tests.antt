-- ===== src/Feedback/Tests.antt =====
-- The type counters (include/rjit/feedback/feedback.hpp) at concrete inputs.
