-- ===== src/Privileged.antt =====
-- Signed root administration (src/privileged).
pub mod Policy
pub mod Ticket
pub mod Broker
