-- ===== src/Tests.antt =====
-- Runs at concrete data.
mod Data
mod Accounts
mod Agents
mod Root
mod Processes
mod Mesh
mod Grants
mod Proxy
mod Instructions
