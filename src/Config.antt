-- ===== src/Config.antt =====
-- Targets, presets and the registry (src/config).
pub mod Target
pub mod Presets
pub mod Baseline
pub mod Registry
