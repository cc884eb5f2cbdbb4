-- ===== src/Approvals.antt =====
-- Approvals that a user has to confirm (src/config). A call reads the clock once.
pub mod Utils
pub mod ManagedAdmin
pub mod AgentTarget
pub mod DeepharnessRead
