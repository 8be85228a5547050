-- ===== src/Contract.antt =====
-- fusen-contract/src: the service contract shared by clients, servers and registries.
pub mod Identity
pub mod Route
pub mod Operation
pub mod Methods
pub mod Http
