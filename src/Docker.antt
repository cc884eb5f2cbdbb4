-- ===== src/Docker.antt =====
-- The proxy between the control plane and the Docker socket (src/docker).
pub mod Json
pub mod Requests
pub mod Checks
pub mod Settings
pub mod Demux
pub mod Exec
pub mod Operator
pub mod Postgres
pub mod Paperclip
pub mod Reads
pub mod Proxy
pub mod Guarded
pub mod Rule
pub mod Permits
