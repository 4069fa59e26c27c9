-- ===== src/Tiers/Tests.antt =====
-- The tiers (src/jit/tier_manager.cpp) at concrete inputs.
