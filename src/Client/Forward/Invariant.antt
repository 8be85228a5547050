-- ===== src/Client/Forward/Invariant.antt =====
-- What the forwarding of fusen/src/client/subscription.rs keeps of the directory, the slot, the deadline and
-- the memberships.
use fusen_rs.Client.Forward.{
  SlotState, Forwarder, or_deadline, unavailable_if_routable, show_state, disconnected_in,
  expired_in, failed_in, slot_of,
}
use fusen_rs.Client.Members.{DiscoveryEndpoint, set_of, collect}
use fusen_rs.Register.Directory.{
  DirectoryState, Publisher, publish, publish_state, is_lifecycle, or_latest,
}
use fusen_rs.Prelude.{
  ℕ, ◌+◌, ◌^◌, ◌<◌, ◌≤◌, ◌≡◌, refl, ◌∙◌, Bool, true, false, Option, none, some, List, map, ltb,
  arith,
}

abbrev pub has_deadline : Option ℕ → Bool
has_deadline none = false
has_deadline (some d) = true

abbrev pub is_stale : DirectoryState → Bool
is_stale DirectoryState.stale = true
is_stale _ = false

-- A slot that is neither failed nor quarantined shows the state of the directory.
abbrev pub Agrees : {E : Type 0} → SlotState E → DirectoryState → Type 0
Agrees (SlotState.failed e) d = Unit
Agrees SlotState.quarantined d = Unit
Agrees slot d = slot ≡ slot_of d

pub or_deadline_set : (d : Option ℕ) (n : ℕ) → has_deadline (or_deadline d n) ≡ true
or_deadline_set none n = refl
or_deadline_set (some d) n = refl

pub unavailable-Agrees :
    {E : Type 0} (slot : SlotState E)
    → Agrees slot DirectoryState.stale
    → Agrees (unavailable_if_routable slot) DirectoryState.unavailable
unavailable-Agrees SlotState.initializing h = cc
unavailable-Agrees SlotState.ready h = refl
unavailable-Agrees SlotState.stale h = refl
unavailable-Agrees SlotState.unavailable h = refl
unavailable-Agrees SlotState.quarantined h = h
unavailable-Agrees SlotState.closed h = cc
unavailable-Agrees (SlotState.failed e) h = h

pub slot_of-Agrees : (E : Type 0) (d : DirectoryState) → Agrees {E = E} (slot_of d) d
slot_of-Agrees E DirectoryState.initializing = refl
slot_of-Agrees E DirectoryState.ready = refl
slot_of-Agrees E DirectoryState.stale = refl
slot_of-Agrees E DirectoryState.unavailable = refl
slot_of-Agrees E DirectoryState.closed = refl

pub published :
    {I : Type 0} (d : DirectoryState) (instances : Option (List I)) (now : ℕ) (p : Publisher I)
    → is_lifecycle d ≡ false
    → p.revision + 1 < 2 ^ 64
    → let after = (publish d instances now p).0 in
      (after.latest.state ≡ d)
      × (after.latest.instances ≡ or_latest instances p.latest.instances)
      × (after.revision ≡ p.revision + 1)
unfolding publish
published d instances now p live room =
    let here : ltb (p.revision + 1) (2 ^ 64) ≡ true = ground arith in
    rw (publish, live, here) (refl, refl, refl)

module _ {O I E : Type 0} (owner_eq : O → O → Bool) (owner : O)
    (endpoint_of : I → DiscoveryEndpoint) where
  pub record IsForwarded (f : Forwarder O I E) : Type 0 where
    pub timed : has_deadline f.stale_deadline ≡ is_stale f.publisher.latest.state
    pub shown : Agrees f.slot f.publisher.latest.state
    pub members :
        set_of owner_eq owner f.endpoint_breakers.owners
        ≡ collect (map endpoint_of f.publisher.latest.instances)

  -- A step from `f` that numbers at most one more snapshot.
  pub record Forwards (f after : Forwarder O I E) : Type 0 where
    pub kept : IsForwarded after
    pub numbered : after.publisher.revision ≤ f.publisher.revision + 1

  show_state-Forwards :
      (d : DirectoryState) (slot : SlotState E) (deadline : Option ℕ) (now : ℕ)
      (f : Forwarder O I E)
      → f.publisher.revision + 1 < 2 ^ 64
      → IsForwarded f
      → is_lifecycle d ≡ false
      → has_deadline deadline ≡ is_stale d
      → Agrees slot d
      → Forwards f (show_state d slot deadline now f)
  unfolding publish_state
  show_state-Forwards d slot deadline now f room h live timed agrees =
      let (same_state, same_instances, next) = published d none now f.publisher live room in
      record {
        kept = record {
          timed = rw same_state timed;
          shown = rw same_state agrees;
          members = rw same_instances h.members;
        };
        numbered = rw next (omega arith);
      }

  -- A step that publishes nothing.
  pub stays-Forwards :
      (f : Forwarder O I E) (slot : SlotState E) (deadline : Option ℕ)
      → IsForwarded f
      → has_deadline deadline ≡ is_stale f.publisher.latest.state
      → Agrees slot f.publisher.latest.state
      → Forwards f (record f { slot = slot; stale_deadline = deadline })
  stays-Forwards f slot deadline h timed agrees = record {
    kept = record { timed = timed; shown = agrees; members = h.members };
    numbered = omega arith;
  }

  pub disconnected-Forwards :
      (d : DirectoryState) (max_staleness now : ℕ) (f : Forwarder O I E)
      → f.publisher.revision + 1 < 2 ^ 64
      → f.publisher.latest.state ≡ d
      → IsForwarded f
      → Forwards f (disconnected_in d max_staleness now f)
  disconnected-Forwards DirectoryState.ready max_staleness now f room e h =
      show_state-Forwards DirectoryState.stale SlotState.stale _ now f room h refl
        (or_deadline_set f.stale_deadline _) refl
  disconnected-Forwards DirectoryState.stale max_staleness now f room e h =
      stays-Forwards f SlotState.stale _ h (or_deadline_set f.stale_deadline _ ∙ rw e refl)
        (rw e refl)
  disconnected-Forwards DirectoryState.initializing max_staleness now f room e h =
      show_state-Forwards DirectoryState.unavailable SlotState.unavailable f.stale_deadline now f
        room h refl (rw e at h.timed) refl
  disconnected-Forwards DirectoryState.unavailable max_staleness now f room e h =
      stays-Forwards f f.slot f.stale_deadline h h.timed h.shown
  disconnected-Forwards DirectoryState.closed max_staleness now f room e h =
      stays-Forwards f f.slot f.stale_deadline h h.timed h.shown

  pub expired-Forwards :
      (d : DirectoryState) (now : ℕ) (f : Forwarder O I E)
      → f.publisher.revision + 1 < 2 ^ 64
      → f.publisher.latest.state ≡ d
      → IsForwarded f
      → Forwards f (expired_in d now f)
  expired-Forwards DirectoryState.stale now f room e h =
      show_state-Forwards DirectoryState.unavailable (unavailable_if_routable f.slot) none now f
        room h refl refl (unavailable-Agrees f.slot (rw e at h.shown))
  expired-Forwards DirectoryState.initializing now f room e h =
      stays-Forwards f f.slot none h (rw e refl) h.shown
  expired-Forwards DirectoryState.ready now f room e h =
      stays-Forwards f f.slot none h (rw e refl) h.shown
  expired-Forwards DirectoryState.unavailable now f room e h =
      stays-Forwards f f.slot none h (rw e refl) h.shown
  expired-Forwards DirectoryState.closed now f room e h =
      stays-Forwards f f.slot none h (rw e refl) h.shown

  pub failed-Forwards :
      (d : DirectoryState) (error : E) (now : ℕ) (f : Forwarder O I E)
      → f.publisher.revision + 1 < 2 ^ 64
      → f.publisher.latest.state ≡ d
      → IsForwarded f
      → Forwards f (failed_in d error now f)
  failed-Forwards DirectoryState.stale error now f room e h =
      stays-Forwards f SlotState.stale f.stale_deadline h h.timed (rw e refl)
  failed-Forwards DirectoryState.initializing error now f room e h =
      show_state-Forwards DirectoryState.unavailable (SlotState.failed error) f.stale_deadline now f
        room h refl (rw e at h.timed) tt
  failed-Forwards DirectoryState.ready error now f room e h =
      stays-Forwards f (SlotState.failed error) f.stale_deadline h h.timed tt
  failed-Forwards DirectoryState.unavailable error now f room e h =
      stays-Forwards f (SlotState.failed error) f.stale_deadline h h.timed tt
  failed-Forwards DirectoryState.closed error now f room e h =
      stays-Forwards f (SlotState.failed error) f.stale_deadline h h.timed tt
