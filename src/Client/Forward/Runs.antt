-- ===== src/Client/Forward/Runs.antt =====
-- Runs of the forwarding in fusen/src/client/subscription.rs.
use fusen_rs.Client.Forward.{
  set_quarantined, SlotState, Forwarder, new_forwarder, mark_disconnected, expire_stale,
  set_provider_failure, slot_of, set_retrying_state, show_snapshot, stale_in, updated_in,
  update_snapshot, is_due,
}
use fusen_rs.Client.Forward.Invariant.{
  has_deadline, is_stale, Agrees, published, or_deadline_set, slot_of-Agrees, IsForwarded, Forwards,
  stays-Forwards, disconnected-Forwards, expired-Forwards, failed-Forwards,
}
use fusen_rs.Client.Members.{
  DiscoveryEndpoint, EndpointBreakers, replace_discovery, set_of, collect,
}
use fusen_rs.Register.Directory.{DirectoryState, DirectorySnapshot, directory, is_lifecycle}
use fusen_rs.Prelude.{
  ℕ, ◌+◌, ◌^◌, ◌<◌, ◌≤◌, ◌≡◌, refl, inl, inr, Bool, true, false, Option, none, some, List, [], ◌∷◌,
  length, arith, Bool-cases,
}

-- What moves a forwarder, with the time that it comes at.
pub data ForwardStep (I E : Type 0) : Type 0 where
  update : DirectorySnapshot I → ForwardStep I E
  disconnect deadline retrying quarantine : ForwardStep I E
  provider_failure : E → ForwardStep I E

module _ {O I E : Type 0} (owner_eq : O → O → Bool) (owner : O)
    (endpoint_of : I → DiscoveryEndpoint) (max_staleness : ℕ) where
  unfoldable pub forward : ForwardStep I E → ℕ → Forwarder O I E → Forwarder O I E
  unfolding update_snapshot mark_disconnected expire_stale set_provider_failure set_retrying_state
      set_quarantined
  forward (update snapshot) now f =
      update_snapshot owner_eq owner endpoint_of snapshot max_staleness now f
  forward disconnect now f = mark_disconnected max_staleness now f
  forward deadline now f = expire_stale now f
  forward retrying now f = set_retrying_state f
  forward (provider_failure e) now f = set_provider_failure e now f
  forward quarantine now f = set_quarantined f

  -- The steps in order, the last one first in the list.
  unfoldable pub forward_all : List (ForwardStep I E × ℕ) → Forwarder O I E → Forwarder O I E
  unfolding forward
  forward_all [] f = f
  forward_all ((s, now) ∷ steps) f = forward s now (forward_all steps f)

module _ {O I E : Type 0} (owner_eq : O → O → Bool) (owner : O)
    (endpoint_of : I → DiscoveryEndpoint) (same : owner_eq owner owner ≡ true) where
  show_snapshot-Forwards :
      (d : DirectoryState) (slot : SlotState E) (due : Option ℕ) (instances : List I) (now : ℕ)
      (f : Forwarder O I E)
      → f.publisher.revision + 1 < 2 ^ 64
      → is_lifecycle d ≡ false
      → has_deadline due ≡ is_stale d
      → Agrees slot d
      → Forwards owner_eq owner endpoint_of f
          (show_snapshot owner_eq owner endpoint_of d slot due instances now f)
  unfolding show_snapshot replace_discovery set_of
  show_snapshot-Forwards d slot due instances now f room live timed agrees =
      let (same_state, same_instances, next) =
        published d (some instances) now f.publisher live room in
      record {
        kept = record {
          timed = rw same_state timed;
          shown = rw same_state agrees;
          members = rw (same_instances, same) refl;
        };
        numbered = rw next (omega arith);
      }

  stale-Forwards :
      (d : DirectoryState) (instances : List I) (max_staleness now : ℕ) (f : Forwarder O I E)
      → f.publisher.revision + 1 < 2 ^ 64
      → Forwards owner_eq owner endpoint_of f
          (stale_in owner_eq owner endpoint_of d instances max_staleness now f)
  stale-Forwards DirectoryState.ready instances max_staleness now f room =
      show_snapshot-Forwards DirectoryState.stale SlotState.stale _ instances now f room refl
        (or_deadline_set f.stale_deadline _) refl
  stale-Forwards DirectoryState.stale instances max_staleness now f room =
      show_snapshot-Forwards DirectoryState.stale SlotState.stale _ instances now f room refl
        (or_deadline_set f.stale_deadline _) refl
  stale-Forwards DirectoryState.initializing instances max_staleness now f room =
      show_snapshot-Forwards DirectoryState.unavailable SlotState.unavailable none instances now f
        room refl refl refl
  stale-Forwards DirectoryState.unavailable instances max_staleness now f room =
      show_snapshot-Forwards DirectoryState.unavailable SlotState.unavailable none instances now f
        room refl refl refl
  stale-Forwards DirectoryState.closed instances max_staleness now f room =
      show_snapshot-Forwards DirectoryState.unavailable SlotState.unavailable none instances now f
        room refl refl refl

  updated-Forwards :
      (d : DirectoryState) (instances : List I) (max_staleness now : ℕ) (f : Forwarder O I E)
      → f.publisher.revision + 1 < 2 ^ 64
      → IsForwarded owner_eq owner endpoint_of f
      → Forwards owner_eq owner endpoint_of f
          (updated_in owner_eq owner endpoint_of d instances max_staleness now f)
  unfolding mark_disconnected
  updated-Forwards DirectoryState.ready instances max_staleness now f room h =
      show_snapshot-Forwards DirectoryState.ready SlotState.ready none instances now f room refl
        refl refl
  updated-Forwards DirectoryState.stale instances max_staleness now f room h =
      stale-Forwards f.publisher.latest.state instances max_staleness now f room
  updated-Forwards DirectoryState.unavailable instances max_staleness now f room h =
      show_snapshot-Forwards DirectoryState.unavailable SlotState.unavailable none instances now f
        room refl refl refl
  updated-Forwards DirectoryState.closed instances max_staleness now f room h =
      disconnected-Forwards owner_eq owner endpoint_of f.publisher.latest.state max_staleness now f
        room refl h
  updated-Forwards DirectoryState.initializing instances max_staleness now f room h =
      stays-Forwards owner_eq owner endpoint_of f f.slot f.stale_deadline h h.timed h.shown

  expire_stale-Forwards :
      (now : ℕ) (f : Forwarder O I E)
      → f.publisher.revision + 1 < 2 ^ 64
      → IsForwarded owner_eq owner endpoint_of f
      → Forwards owner_eq owner endpoint_of f (expire_stale now f)
  unfolding expire_stale
  expire_stale-Forwards now f room h = elim (Bool-cases (is_due f.stale_deadline now)) [
    | inl y ↦
        rw (expire_stale, y)
          (expired-Forwards owner_eq owner endpoint_of f.publisher.latest.state now f room refl h)
    | inr n ↦
        rw (expire_stale, n)
          (stays-Forwards owner_eq owner endpoint_of f f.slot f.stale_deadline h h.timed h.shown)
  ]

  forward-Forwards :
      (max_staleness : ℕ) (step : ForwardStep I E) (now : ℕ) (f : Forwarder O I E)
      → f.publisher.revision + 1 < 2 ^ 64
      → IsForwarded owner_eq owner endpoint_of f
      → Forwards owner_eq owner endpoint_of f
          (forward owner_eq owner endpoint_of max_staleness step now f)
  unfolding forward update_snapshot mark_disconnected set_provider_failure set_retrying_state
      set_quarantined
  forward-Forwards max_staleness (update snapshot) now f room h =
      updated-Forwards snapshot.state snapshot.instances max_staleness now f room h
  forward-Forwards max_staleness disconnect now f room h =
      disconnected-Forwards owner_eq owner endpoint_of f.publisher.latest.state max_staleness now f
        room refl h
  forward-Forwards max_staleness deadline now f room h = expire_stale-Forwards now f room h
  forward-Forwards max_staleness retrying now f room h =
      stays-Forwards owner_eq owner endpoint_of f (slot_of f.publisher.latest.state)
        f.stale_deadline h h.timed (slot_of-Agrees E f.publisher.latest.state)
  forward-Forwards max_staleness quarantine now f room h =
      stays-Forwards owner_eq owner endpoint_of f SlotState.quarantined f.stale_deadline h h.timed
        tt
  forward-Forwards max_staleness (provider_failure e) now f room h =
      failed-Forwards owner_eq owner endpoint_of f.publisher.latest.state e now f room refl h

  pub new_forwarder-IsForwarded :
      (start : ℕ) (breakers : EndpointBreakers O)
      → set_of owner_eq owner breakers.owners ≡ []
      → IsForwarded owner_eq owner endpoint_of (new_forwarder {E = E} start breakers)
  unfolding new_forwarder directory collect
  new_forwarder-IsForwarded start breakers fresh = record {
    timed = refl;
    shown = refl;
    members = fresh;
  }

  -- The steps so far, and the revisions that they took.
  pub record Ran (n : ℕ) (f : Forwarder O I E) : Type 0 where
    pub kept : IsForwarded owner_eq owner endpoint_of f
    pub within : f.publisher.revision ≤ n

  pub all-Ran :
      (max_staleness : ℕ) (steps : List (ForwardStep I E × ℕ)) (f : Forwarder O I E)
      → f.publisher.revision ≡ 0
      → IsForwarded owner_eq owner endpoint_of f
      → length steps < 2 ^ 64
      → Ran (length steps) (forward_all owner_eq owner endpoint_of max_staleness steps f)
  unfolding forward_all
  all-Ran max_staleness [] f first h few = record { kept = h; within = omega arith }
  all-Ran max_staleness ((s, now) ∷ steps) f first h few =
      let before = all-Ran max_staleness steps f first h (omega arith) in
      let after =
        forward-Forwards max_staleness s now
          (forward_all owner_eq owner endpoint_of max_staleness steps f)
          (omega (arith, before.within)) before.kept in
      record { kept = after.kept; within = omega (arith, before.within, after.numbered) }

-- The task of a subscription starts on an empty directory and on breakers that list no endpoint for its
-- selector. Before it ends, fewer than 2^64 steps move it, of any kind and in any order: snapshots of the
-- provider in any state, lost connections, the timer, failures, quarantines and retries. Then a deadline
-- for staleness is set exactly when the directory is stale; the slot shows the state of the directory,
-- unless it holds a failure or a quarantine; and the endpoints that the breakers list for the selector are
-- those of the directory's latest instances. The selector is equal to itself, and no other task changes
-- what is listed for it.
pub forward_all-IsForwarded :
    {O I E : Type 0} (owner_eq : O → O → Bool) (owner : O) (endpoint_of : I → DiscoveryEndpoint)
    (max_staleness start : ℕ) (breakers : EndpointBreakers O) (steps : List (ForwardStep I E × ℕ))
    → owner_eq owner owner ≡ true
    → set_of owner_eq owner breakers.owners ≡ []
    → length steps < 2 ^ 64
    → IsForwarded owner_eq owner endpoint_of
        (forward_all owner_eq owner endpoint_of max_staleness steps (new_forwarder start breakers))
unfolding new_forwarder directory
forward_all-IsForwarded owner_eq owner endpoint_of max_staleness start breakers steps same fresh
      few =
    (all-Ran owner_eq owner endpoint_of same max_staleness steps (new_forwarder start breakers) refl
      (new_forwarder-IsForwarded owner_eq owner endpoint_of same start breakers fresh) few).kept
