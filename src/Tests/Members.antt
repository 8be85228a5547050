-- ===== src/Tests/Members.antt =====
-- Runs of fusen/src/client/endpoint_breakers.rs and of the forwarding in
-- fusen/src/client/subscription.rs, with numbers for owners.
use fusen_rs.Client.Members.{
  DiscoveryEndpoint, EndpointBreakerKey, EndpointBreakers, new_breakers, discovery, set_of,
}
use fusen_rs.Client.Members.Owners.{owners_with}
use fusen_rs.Client.Members.References.{as_count}
use fusen_rs.Client.Members.Runs.{
  MembershipCall, replace, leave, look_up, after_calls, is_listed, after_calls-IsMembership,
}
use fusen_rs.Resilience.Store.Held.{AllKeys}
use fusen_rs.Client.Forward.{
  Forwarder, new_forwarder, is_due, expire_stale, update_snapshot, mark_disconnected,
}
use fusen_rs.Client.Forward.Invariant.{IsForwarded, Agrees}
use fusen_rs.Client.Forward.Runs.{
  ForwardStep, update, disconnect, forward_all, forward_all-IsForwarded,
}
use fusen_rs.Client.Forward.Expiry.{forward_all_expires}
use fusen_rs.Register.Directory.{DirectoryState, DirectorySnapshot, directory, publish}
use fusen_rs.Prelude.{ℕ, refl, true, none, ◌≡◌, Bool, List, [], ◌∷◌, ◌==◌, arith}
use fusen_rs.Prelude.Bytes.{bytes_of}

abbrev same : ℕ → ℕ → Bool
same a b = a == b

abbrev first : DiscoveryEndpoint
first = record { service = bytes_of "users"; endpoint = bytes_of "http://first" }

abbrev key : EndpointBreakerKey
key = record {
  service = bytes_of "users";
  binding_id = bytes_of "json";
  source = discovery;
  endpoint = bytes_of "http://first";
}

abbrev calls : List (MembershipCall ℕ)
calls = leave 1 ∷ look_up key 5 ∷ replace 2 (first ∷ first ∷ []) ∷ replace 1 (first ∷ []) ∷ []

after_calls-IsMembership_example :
    let b : EndpointBreakers ℕ = after_calls same calls (new_breakers 2 600) in
    ((e : DiscoveryEndpoint) → b.references e ≡ as_count (owners_with e b.owners))
    × AllKeys (is_listed same b) b.store.entries
after_calls-IsMembership_example = after_calls-IsMembership same 2 600 calls (omega arith)

abbrev empty_breakers : EndpointBreakers ℕ
empty_breakers = new_breakers 2 600

abbrev itself : DiscoveryEndpoint → DiscoveryEndpoint
itself e = e

abbrev received : DirectorySnapshot DiscoveryEndpoint
received = record {
  revision = 1;
  observed_at = 3;
  state = DirectoryState.ready;
  instances = first ∷ [];
}

-- A snapshot, then a lost connection.
abbrev steps : List (ForwardStep DiscoveryEndpoint ℕ × ℕ)
steps = (disconnect, 20) ∷ (update received, 5) ∷ []

abbrev lost : Forwarder ℕ DiscoveryEndpoint ℕ
lost = forward_all same 7 itself 30 steps (new_forwarder 0 empty_breakers)

forward_all-IsForwarded_example : IsForwarded same 7 itself lost
unfolding set_of new_breakers
forward_all-IsForwarded_example =
    forward_all-IsForwarded same 7 itself 30 0 empty_breakers steps refl refl (omega arith)

lost_due : is_due lost.stale_deadline 50 ≡ true
unfolding forward_all update_snapshot mark_disconnected new_forwarder directory publish is_due
lost_due = refl

forward_all_expires_example :
    let after = expire_stale 50 lost in
    (after.publisher.latest.state ≡ DirectoryState.unavailable)
    × (after.publisher.latest.instances ≡ lost.publisher.latest.instances)
    × (after.stale_deadline ≡ none)
    × Agrees after.slot DirectoryState.unavailable
unfolding set_of new_breakers
forward_all_expires_example =
    forward_all_expires same 7 itself 30 0 50 empty_breakers steps refl refl (omega arith) lost_due
