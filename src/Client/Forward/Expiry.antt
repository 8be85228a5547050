-- ===== src/Client/Forward/Expiry.antt =====
-- The timer of `await_with_stale_deadline` in fusen/src/client/subscription.rs.
use fusen_rs.Client.Forward.{Forwarder, new_forwarder, is_due, expired_in, expire_stale}
use fusen_rs.Client.Forward.Invariant.{
  has_deadline, is_stale, Agrees, published, unavailable-Agrees,
}
use fusen_rs.Client.Forward.Runs.{ForwardStep, forward_all, all-Ran, new_forwarder-IsForwarded}
use fusen_rs.Client.Members.{DiscoveryEndpoint, EndpointBreakers, set_of}
use fusen_rs.Register.Directory.{DirectoryState, directory, publish_state}
use fusen_rs.Prelude.{
  ℕ, ◌+◌, ◌^◌, ◌<◌, ◌≡◌, refl, ◌∙◌, sym, Bool, true, Option, none, some, List, [], length, arith,
}

due_set : (due : Option ℕ) (now : ℕ) → is_due due now ≡ true → has_deadline due ≡ true
unfolding is_due
due_set none now h = h
due_set (some d) now h = refl

stale_of : (d : DirectoryState) → is_stale d ≡ true → d ≡ DirectoryState.stale
stale_of DirectoryState.stale h = refl
stale_of DirectoryState.initializing h = cc
stale_of DirectoryState.ready h = cc
stale_of DirectoryState.unavailable h = cc
stale_of DirectoryState.closed h = cc

expired_ends :
    {O I E : Type 0} (d : DirectoryState) (now : ℕ) (f : Forwarder O I E)
    → f.publisher.revision + 1 < 2 ^ 64
    → d ≡ DirectoryState.stale
    → Agrees f.slot DirectoryState.stale
    → let after = expired_in d now f in
      (after.publisher.latest.state ≡ DirectoryState.unavailable)
      × (after.publisher.latest.instances ≡ f.publisher.latest.instances)
      × (after.stale_deadline ≡ none)
      × Agrees after.slot DirectoryState.unavailable
unfolding publish_state
expired_ends DirectoryState.stale now f room e agrees =
    let (same_state, same_instances, _) =
      published DirectoryState.unavailable none now f.publisher refl room in
    (same_state, same_instances, refl, unavailable-Agrees f.slot agrees)
expired_ends DirectoryState.initializing now f room e agrees = cc
expired_ends DirectoryState.ready now f room e agrees = cc
expired_ends DirectoryState.unavailable now f room e agrees = cc
expired_ends DirectoryState.closed now f room e agrees = cc

-- After any steps of the task of a subscription, from its start and fewer than 2^64 - 1 of them, a timer
-- that finds the deadline reached makes the directory unavailable, keeps its instances, clears the deadline
-- and leaves in the slot that no endpoint is available, or the failure or quarantine that it held.
pub forward_all_expires :
    {O I E : Type 0} (owner_eq : O → O → Bool) (owner : O) (endpoint_of : I → DiscoveryEndpoint)
    (max_staleness start now : ℕ) (breakers : EndpointBreakers O)
    (steps : List (ForwardStep I E × ℕ))
    → owner_eq owner owner ≡ true
    → set_of owner_eq owner breakers.owners ≡ []
    → length steps + 1 < 2 ^ 64
    → is_due
        (forward_all owner_eq owner endpoint_of max_staleness steps
          (new_forwarder start breakers)).stale_deadline
        now
      ≡ true
    → let f =
        forward_all owner_eq owner endpoint_of max_staleness steps (new_forwarder start breakers) in
      let after = expire_stale now f in
      (after.publisher.latest.state ≡ DirectoryState.unavailable)
      × (after.publisher.latest.instances ≡ f.publisher.latest.instances)
      × (after.stale_deadline ≡ none)
      × Agrees after.slot DirectoryState.unavailable
unfolding new_forwarder directory expire_stale
forward_all_expires owner_eq owner endpoint_of max_staleness start now breakers steps same fresh few
      due =
    let f =
      forward_all owner_eq owner endpoint_of max_staleness steps (new_forwarder start breakers) in
    let ran =
      all-Ran owner_eq owner endpoint_of same max_staleness steps (new_forwarder start breakers)
        refl (new_forwarder-IsForwarded owner_eq owner endpoint_of same start breakers fresh)
        (omega arith) in
    let is_stale_now =
      stale_of f.publisher.latest.state (sym ran.kept.timed ∙ due_set f.stale_deadline now due) in
    rw due (
      expired_ends f.publisher.latest.state now f (omega (arith, ran.within)) is_stale_now
        (rw is_stale_now at ran.kept.shown))
