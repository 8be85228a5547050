-- ===== src/Server.antt =====
-- fusen/src/server: routing of requests.
pub mod Routes
pub mod Table
