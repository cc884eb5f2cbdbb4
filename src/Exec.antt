-- ===== src/Exec.antt =====
-- The exec broker (src/exec/broker.ts): its checks, its sessions, and what is proved of them.
pub mod Arguments
pub mod Sessions
pub mod Capacity
pub mod Output
