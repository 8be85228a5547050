-- ===== src/Register/Directory.antt =====
-- fusen-register/src/directory.rs: the publisher of a service directory. The watch channel is tokio's: a
-- cell that holds the snapshot sent last. A call runs under the publisher's lock, which is taken not
-- to be poisoned.
pub mod Revisions
use fusen_rs.Prelude.{
  ℕ, ◌+◌, ◌^◌, Bool, true, false, Option, none, some, List, [], ◌∷◌, ltb, if◌then◌else◌, Result, ok,
  err,
}

pub data DirectoryState : Type 0 where
  initializing ready stale unavailable closed : DirectoryState

pub record DirectorySnapshot (I : Type 0) : Type 0 where
  pub revision : ℕ
  pub observed_at : ℕ
  pub state : DirectoryState
  pub instances : List I

-- `PublisherState` with the value in the channel.
pub record Publisher (I : Type 0) : Type 0 where
  pub revision : ℕ
  pub latest : DirectorySnapshot I

pub data PublishError : Type 0 where
  lifecycle_state revision_overflow : PublishError

abbrev pub is_lifecycle : DirectoryState → Bool
is_lifecycle initializing = true
is_lifecycle closed = true
is_lifecycle _ = false

-- `u64::checked_add` of one.
abbrev pub next_revision : ℕ → Option ℕ
next_revision r = if ltb (r + 1) (2 ^ 64) then some (r + 1) else none

abbrev pub or_latest {ℓ} : {A : Type ℓ} → Option A → A → A
or_latest none a = a
or_latest (some b) a = b

module _ {I : Type 0} where
  unfoldable pub directory : ℕ → Publisher I
  directory now = record {
    revision = 0;
    latest = record { revision = 0; observed_at = now; state = initializing; instances = [] };
  }

  -- The publisher afterwards, and the snapshot that was sent.
  unfoldable pub publish :
      DirectoryState
      → Option (List I)
      → ℕ
      → Publisher I
      → Publisher I × Result (DirectorySnapshot I) PublishError
  publish state instances now p =
      if is_lifecycle state then (p, err lifecycle_state) else elim (next_revision p.revision) [
        | none ↦ (p, err revision_overflow)
        | some r ↦
            let snapshot : DirectorySnapshot I = record {
              revision = r;
              observed_at = now;
              state = state;
              instances = or_latest instances p.latest.instances;
            } in
            (record { revision = r; latest = snapshot }, ok snapshot)
      ]

  unfoldable pub publish_ready :
      List I → ℕ → Publisher I → Publisher I × Result (DirectorySnapshot I) PublishError
  unfolding publish
  publish_ready instances now p = publish ready (some instances) now p

  unfoldable pub publish_snapshot :
      DirectoryState
      → List I
      → ℕ
      → Publisher I
      → Publisher I × Result (DirectorySnapshot I) PublishError
  unfolding publish
  publish_snapshot state instances now p = publish state (some instances) now p

  unfoldable pub publish_state :
      DirectoryState → ℕ → Publisher I → Publisher I × Result (DirectorySnapshot I) PublishError
  unfolding publish
  publish_state state now p = publish state none now p

  -- `PublisherInner::drop`, and the snapshot that was sent: none where no revision is left.
  unfoldable pub close : ℕ → Publisher I → Publisher I × Option (DirectorySnapshot I)
  close now p = elim (next_revision p.revision) [
    | none ↦ (p, none)
    | some r ↦
        let snapshot : DirectorySnapshot I = record {
          revision = r;
          observed_at = now;
          state = closed;
          instances = p.latest.instances;
        } in
        (record { revision = r; latest = snapshot }, some snapshot)
  ]
