-- ===== src/Agent.antt =====
-- The control plane's side of Agent Mesh: src/agent/gateway.ts and src/agent/router.ts.
pub mod Gateway
pub mod Routes
