-- ===== src/Client.antt =====
-- fusen/src/client: how an invocation picks an endpoint, attempts it and settles its permits.
pub mod Instances
pub mod Select
pub mod Response
pub mod Attempts
pub mod Execute
pub mod Invoke
pub mod Members
pub mod Forward
pub mod Config
