-- ===== src/Deepharness.antt =====
-- The store of grants for DeepHarness sessions (integrations/deepharness).
pub mod Model
pub mod Grants
