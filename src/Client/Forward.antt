-- ===== src/Client/Forward.antt =====
-- The forwarding of snapshots in fusen/src/client/subscription.rs: `update_snapshot`, `mark_disconnected`,
-- `expire_stale`, `set_provider_failure` and `set_retrying_state`, over the directory of a subscription and
-- the memberships of endpoints. Each is one step of the task that owns the subscription. Metrics are left
-- out; instances, owners and errors are of any type.
pub mod Invariant
pub mod Runs
pub mod Expiry
use fusen_rs.Client.Members.{DiscoveryEndpoint, EndpointBreakers, new_breakers, replace_discovery}
use fusen_rs.Register.Directory.{
  DirectoryState, DirectorySnapshot, Publisher, directory, publish_snapshot, publish_state,
}
use fusen_rs.Prelude.{
  Bool, false, ℕ, ◌+◌, Option, none, some, List, [], ◌∷◌, map, leb, if◌then◌else◌,
}

pub data SlotState (E : Type 0) : Type 0 where
  initializing ready stale unavailable quarantined closed : SlotState E
  failed : E → SlotState E

pub record Forwarder (O I E : Type 0) : Type 0 where
  pub publisher : Publisher I
  pub slot : SlotState E
  pub stale_deadline : Option ℕ
  pub endpoint_breakers : EndpointBreakers O

-- The start of `run_subscription`, with the breakers as they are then.
unfoldable pub new_forwarder : {O I E : Type 0} → ℕ → EndpointBreakers O → Forwarder O I E
unfolding directory
new_forwarder now breakers = record {
  publisher = directory now;
  slot = SlotState.initializing;
  stale_deadline = none;
  endpoint_breakers = breakers;
}

abbrev pub or_deadline : Option ℕ → ℕ → Option ℕ
or_deadline none deadline = some deadline
or_deadline (some d) deadline = some d

unfoldable pub is_due : Option ℕ → ℕ → Bool
is_due none now = false
is_due (some deadline) now = leb deadline now

abbrev pub unavailable_if_routable : {E : Type 0} → SlotState E → SlotState E
unavailable_if_routable SlotState.ready = SlotState.unavailable
unavailable_if_routable SlotState.stale = SlotState.unavailable
unavailable_if_routable slot = slot

abbrev pub slot_of : {E : Type 0} → DirectoryState → SlotState E
slot_of DirectoryState.initializing = SlotState.initializing
slot_of DirectoryState.ready = SlotState.ready
slot_of DirectoryState.stale = SlotState.stale
slot_of DirectoryState.unavailable = SlotState.unavailable
slot_of DirectoryState.closed = SlotState.closed

module _ {O I E : Type 0} where
  -- `publish_state` and `send_replace`.
  abbrev pub show_state :
      DirectoryState → SlotState E → Option ℕ → ℕ → Forwarder O I E → Forwarder O I E
  show_state state slot deadline now f = record f {
    publisher = (publish_state state now f.publisher).0;
    slot = slot;
    stale_deadline = deadline;
  }

  -- `mark_disconnected`, on the state of the directory.
  abbrev pub disconnected_in : DirectoryState → ℕ → ℕ → Forwarder O I E → Forwarder O I E
  disconnected_in DirectoryState.ready max_staleness now f =
      show_state DirectoryState.stale SlotState.stale
        (or_deadline f.stale_deadline (now + max_staleness)) now f
  disconnected_in DirectoryState.stale max_staleness now f = record f {
    slot = SlotState.stale;
    stale_deadline = or_deadline f.stale_deadline (now + max_staleness);
  }
  disconnected_in DirectoryState.initializing max_staleness now f =
      show_state DirectoryState.unavailable SlotState.unavailable f.stale_deadline now f
  disconnected_in _ max_staleness now f = f

  unfoldable pub mark_disconnected : ℕ → ℕ → Forwarder O I E → Forwarder O I E
  unfolding publish_state
  mark_disconnected max_staleness now f =
      disconnected_in f.publisher.latest.state max_staleness now f

  abbrev pub expired_in : DirectoryState → ℕ → Forwarder O I E → Forwarder O I E
  expired_in DirectoryState.stale now f =
      show_state DirectoryState.unavailable (unavailable_if_routable f.slot) none now f
  expired_in _ now f = record f { stale_deadline = none }

  -- `expire_stale` and the reset of the deadline, in `await_with_stale_deadline`.
  unfoldable pub expire_stale : ℕ → Forwarder O I E → Forwarder O I E
  unfolding publish_state is_due
  expire_stale now f =
      if is_due f.stale_deadline now then expired_in f.publisher.latest.state now f else f

  abbrev pub failed_in : DirectoryState → E → ℕ → Forwarder O I E → Forwarder O I E
  failed_in DirectoryState.stale e now f = record f { slot = SlotState.stale }
  failed_in DirectoryState.initializing e now f =
      show_state DirectoryState.unavailable (SlotState.failed e) f.stale_deadline now f
  failed_in _ e now f = record f { slot = SlotState.failed e }

  unfoldable pub set_provider_failure : E → ℕ → Forwarder O I E → Forwarder O I E
  unfolding publish_state
  set_provider_failure e now f = failed_in f.publisher.latest.state e now f

  unfoldable pub set_retrying_state : Forwarder O I E → Forwarder O I E
  set_retrying_state f = record f { slot = slot_of f.publisher.latest.state }

  -- The activation or the end of a generation takes too long.
  unfoldable pub set_quarantined : Forwarder O I E → Forwarder O I E
  set_quarantined f = record f { slot = SlotState.quarantined }

module _ {O I E : Type 0} (owner_eq : O → O → Bool) (owner : O)
    (endpoint_of : I → DiscoveryEndpoint) where
  -- `replace_discovery`, `publish_snapshot` and `send_replace`.
  unfoldable pub show_snapshot :
      DirectoryState → SlotState E → Option ℕ → List I → ℕ → Forwarder O I E → Forwarder O I E
  unfolding replace_discovery publish_snapshot
  show_snapshot state slot deadline instances now f = record {
    publisher = (publish_snapshot state instances now f.publisher).0;
    slot = slot;
    stale_deadline = deadline;
    endpoint_breakers =
        replace_discovery owner_eq owner (map endpoint_of instances) f.endpoint_breakers;
  }

  -- A stale snapshot, on the state of the directory.
  abbrev pub stale_in : DirectoryState → List I → ℕ → ℕ → Forwarder O I E → Forwarder O I E
  stale_in DirectoryState.ready instances max_staleness now f =
      show_snapshot DirectoryState.stale SlotState.stale
        (or_deadline f.stale_deadline (now + max_staleness)) instances now f
  stale_in DirectoryState.stale instances max_staleness now f =
      show_snapshot DirectoryState.stale SlotState.stale
        (or_deadline f.stale_deadline (now + max_staleness)) instances now f
  stale_in _ instances max_staleness now f =
      show_snapshot DirectoryState.unavailable SlotState.unavailable none instances now f

  abbrev pub updated_in : DirectoryState → List I → ℕ → ℕ → Forwarder O I E → Forwarder O I E
  updated_in DirectoryState.ready instances max_staleness now f =
      show_snapshot DirectoryState.ready SlotState.ready none instances now f
  updated_in DirectoryState.stale instances max_staleness now f =
      stale_in f.publisher.latest.state instances max_staleness now f
  updated_in DirectoryState.unavailable instances max_staleness now f =
      show_snapshot DirectoryState.unavailable SlotState.unavailable none instances now f
  updated_in DirectoryState.closed instances max_staleness now f =
      mark_disconnected max_staleness now f
  updated_in DirectoryState.initializing instances max_staleness now f = f

  unfoldable pub update_snapshot : DirectorySnapshot I → ℕ → ℕ → Forwarder O I E → Forwarder O I E
  unfolding show_snapshot mark_disconnected
  update_snapshot snapshot max_staleness now f =
      updated_in snapshot.state snapshot.instances max_staleness now f
