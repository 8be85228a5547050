-- ===== src/Register/Directory/Revisions.antt =====
-- The snapshots of a directory of fusen-register/src/directory.rs, in the order in which they are sent.
use fusen_rs.Register.Directory.{
  DirectoryState, DirectorySnapshot, Publisher, PublishError, publish_ready, publish_snapshot,
  publish_state, is_lifecycle, closed, close,
}
use fusen_rs.Prelude.{
  ℕ, ◌+◌, ◌^◌, ◌≡◌, ◌<◌, ◌≤◌, ◌⊎◌, false, Option, none, some, List, [], ◌∷◌, Result, ok, err,
}

-- A call of the publisher, with its time.
pub data Call (I : Type 0) : Type 0 where
  send_ready : (instances : List I) (now : ℕ) → Call I
  send_snapshot : (state : DirectoryState) (instances : List I) (now : ℕ) → Call I
  send_state : (state : DirectoryState) (now : ℕ) → Call I

module _ {I : Type 0} where
  unfoldable pub call :
      Publisher I → Call I → Publisher I × Result (DirectorySnapshot I) PublishError
  unfolding publish_ready publish_snapshot publish_state
  call p (send_ready instances now) = publish_ready instances now p
  call p (send_snapshot state instances now) = publish_snapshot state instances now p
  call p (send_state state now) = publish_state state now p

  abbrev pub keep_sent :
      Result (DirectorySnapshot I) PublishError
      → List (DirectorySnapshot I)
      → List (DirectorySnapshot I)
  keep_sent (ok s) ss = s ∷ ss
  keep_sent (err e) ss = ss

  abbrev pub last_sent : Option (DirectorySnapshot I) → List (DirectorySnapshot I)
  last_sent none = []
  last_sent (some s) = s ∷ []

  -- The snapshots that the calls send, and then the drop of the last publisher.
  unfoldable pub sent : Publisher I → List (Call I) → ℕ → List (DirectorySnapshot I)
  unfolding call close
  sent p [] dropped = last_sent (close dropped p).1
  sent p (c ∷ cs) dropped = keep_sent (call p c).1 (sent (call p c).0 cs dropped)

  -- The snapshots carry the revisions from the given one on, all of 64 bits. They are in no lifecycle
  -- state up to the last one, which is closed and keeps the instances before it. It is missing only if
  -- no revision is left for it.
  abbrev pub IsLife : ℕ → List I → List (DirectorySnapshot I) → Type 0
  IsLife r instances [] = 2 ^ 64 ≤ r
  IsLife r instances (s ∷ ss) =
      (s.revision ≡ r)
      × (r < 2 ^ 64)
      × (((s.state ≡ closed) × (s.instances ≡ instances) × (ss ≡ []))
          ⊎ ((is_lifecycle s.state ≡ false) × IsLife (r + 1) s.instances ss))

  pub data CallOutcome (p : Publisher I)
      (r : Publisher I × Result (DirectorySnapshot I) PublishError) : Type 0 where
    rejected : (e : PublishError) → r.0 ≡ p → r.1 ≡ err e → CallOutcome p r
    published :
        (s : DirectorySnapshot I)
        → r.0 ≡ record { revision = p.revision + 1; latest = s }
        → r.1 ≡ ok s
        → s.revision ≡ p.revision + 1
        → p.revision + 1 < 2 ^ 64
        → is_lifecycle s.state ≡ false
        → CallOutcome p r
