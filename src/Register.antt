-- ===== src/Register.antt =====
-- fusen-register/src: service discovery.
pub mod Directory
