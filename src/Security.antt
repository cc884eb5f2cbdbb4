-- ===== src/Security.antt =====
-- The path rules of the control plane (src/security).
pub mod SecretPaths
pub mod Paths
pub mod Cleaning
pub mod Confinement
