-- ===== src/Tests/Directories.antt =====
-- Runs of fusen-register/src/directory.rs, with numbers for instances.
use fusen_rs.Register.Directory.{stale, closed}
use fusen_rs.Register.Directory.Revisions.{Call, send_ready, send_state}
use fusen_rs.Prelude.{ℕ, List, [], ◌∷◌}

abbrev calls : List (Call ℕ)
calls = send_ready (1 ∷ 2 ∷ []) 10 ∷ send_state closed 11 ∷ send_state stale 12 ∷ []
