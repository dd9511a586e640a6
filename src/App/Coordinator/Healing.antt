-- ===== src/App/Coordinator/Healing.antt =====
-- source/app/protocol_coordinator.c: `coordinator_sync_active_media` reads the ownership and tells the
-- coordinator later, so another thread may come between. What such a race leaves, the next tick mends.
use nx_cast.Base.{
  ℕ, ◌≡◌, ◌≢◌, ◌⊎◌, inl, inr, refl, sym, subst, arith, Bool, true, false, some, Bool-cases,
}
use nx_cast.Player.Ownership.{
  MediaOwner, owner_eq, Lease, zero_lease, lease_equal, Ownership, current_lease,
}
use nx_cast.Player.Ownership.Leases.{IsFenced, owner_eq_iff, lease_equal_iff}
use nx_cast.App.MediaSession.{Session, transition}
use nx_cast.App.MediaSession.Laws.{Inv, transition-Inv, lease_valid_iff}
use nx_cast.App.Coordinator.Data.{ResourceMode, Coordinator, World, media_ownership}
use nx_cast.App.Coordinator.Resources.{set_desired_resource_mode}
use nx_cast.App.Coordinator.Media.{claim_of, release_of, sync_event, sync_active_media, wanted_mode}
use nx_cast.App.Coordinator.Shows.{
  Shows, apply_media_event-Shows, set_desired_resource_mode-Shows, apply_discovery_suspension-Shows,
}
use nx_cast.App.Coordinator.Synced.{IsSynced, shown-IsSynced, transition-release_of}
use nx_cast.App.Coordinator.Observed.{wanted_mode-owner}

-- The coordinator shows a session with the lease.
abbrev Holding : Lease → ResourceMode → Bool → Coordinator → Type 0
Holding l m x c = (t : Session) × Inv t × (t.lease ≡ l) × Shows t m x c

transition-claim_of :
    (o : Ownership) (s : Session)
    → IsFenced o
    → o.current.owner ≢ MediaOwner.none
    → s.lease ≡ zero_lease
    → (transition s (claim_of o.current)).0.lease ≡ o.current
unfolding transition
transition-claim_of o s f real z =
    ground (arith, lease_valid_iff o.current, lease_equal_iff s.lease o.current)

unowned-lease : (s : Session) → Inv s → s.lease.owner ≡ MediaOwner.none → s.lease ≡ zero_lease
unowned-lease s v e = ground (arith, v.idle_clear, v.busy_leased, lease_valid_iff s.lease)

module _ (c : Coordinator) {m : ResourceMode} {x : Bool} (v : Inv c.snapshot.media_session)
    (h : Shows c.snapshot.media_session m x c) where
  sync_event_free : (l : Lease) (now : ℕ) → Holding zero_lease m x (sync_event c (false, l) now)
  unfolding sync_event
  sync_event_free l now =
      elim (Bool-cases (owner_eq c.snapshot.media_session.lease.owner MediaOwner.none)) [
        | inl e ↦ rw e (
          c.snapshot.media_session,
          v,
          unowned-lease c.snapshot.media_session v
              ((owner_eq_iff c.snapshot.media_session.lease.owner MediaOwner.none).0 e),
          h,
        )
        | inr e ↦ rw e (
          (transition c.snapshot.media_session (release_of c.snapshot.media_session.lease)).0,
          transition-Inv c.snapshot.media_session _ v,
          transition-release_of c.snapshot.media_session v,
          apply_media_event-Shows c (release_of c.snapshot.media_session.lease) true now refl h,
        )
      ]

  sync_event_held :
      (o : Ownership) (now : ℕ)
      → IsFenced o
      → o.current.owner ≢ MediaOwner.none
      → c.snapshot.media_session.lease ≡ zero_lease
      → Holding o.current m x (sync_event c (true, o.current) now)
  unfolding sync_event
  sync_event_held o now f real z =
      elim (Bool-cases (lease_equal c.snapshot.media_session.lease o.current)) [
        | inl e ↦ rw e (
          c.snapshot.media_session,
          v,
          (lease_equal_iff c.snapshot.media_session.lease o.current).0 e,
          h,
        )
        | inr e ↦ rw e (
          (transition c.snapshot.media_session (claim_of o.current)).0,
          transition-Inv c.snapshot.media_session _ v,
          transition-claim_of o c.snapshot.media_session f real z,
          apply_media_event-Shows c (claim_of o.current) true now refl h,
        )
      ]

zero_of_none :
    (o : Ownership) → IsFenced o → o.current.owner ≡ MediaOwner.none → o.current ≡ zero_lease
zero_of_none o f e = ground arith

sync_event-Holding :
    (o : Ownership) (c : Coordinator) {m : ResourceMode} {x : Bool} (now : ℕ)
    → IsFenced o
    → Inv c.snapshot.media_session
    → Shows c.snapshot.media_session m x c
    → (o.current ≡ zero_lease) ⊎ (c.snapshot.media_session.lease ≡ zero_lease)
    → Holding o.current m x (sync_event c (current_lease o) now)
unfolding current_lease
sync_event-Holding o c {m} {x} now f v h race =
    elim (Bool-cases (owner_eq o.current.owner MediaOwner.none)) [
      | inl e ↦ rw e (
          subst (λ (l : Lease). Holding l m x (sync_event c (false, o.current) now))
            (sym (zero_of_none o f ((owner_eq_iff o.current.owner MediaOwner.none).0 e)))
            (sync_event_free c v h o.current now))
      | inr e ↦ rw e (
          sync_event_held c v h o now f
            (λ n. ground (arith, owner_eq_iff o.current.owner MediaOwner.none))
            (ground (arith, owner_eq_iff o.current.owner MediaOwner.none)))
    ]

-- When the player is unowned, or the coordinator shows no lease, then after one synchronisation the
-- coordinator and the ownership agree, whatever stale session or wanted mode was left before.
pub sync_active_media_heals :
    (w : World) (now : ℕ)
    → IsFenced w.ownership
    → Inv w.coordinator.snapshot.media_session
    → w.coordinator.snapshot.active_media ≡ w.coordinator.snapshot.media_session.lease
    → (w.ownership.current ≡ zero_lease) ⊎ (w.coordinator.snapshot.media_session.lease ≡ zero_lease)
    → IsSynced
        (record w { coordinator = sync_active_media w.coordinator (current_lease w.ownership) now })
unfolding sync_active_media
sync_active_media_heals w now f v shown race =
    let c = w.coordinator in
    let (t, tv, tl, th) =
      sync_event-Holding w.ownership c now f v
        (record { session = refl; media = shown; mode = refl; exclusive = refl }) race in
    shown-IsSynced w.ownership _ t c.exclusive_media_resources f tv tl (
      apply_discovery_suspension-Shows _ (current_lease w.ownership).0 (some media_ownership) (
        subst
          (λ (m : ResourceMode). Shows t m c.exclusive_media_resources (
            set_desired_resource_mode (sync_event c (current_lease w.ownership) now)
              (wanted_mode (current_lease w.ownership))))
          (wanted_mode-owner c.exclusive_media_resources w.ownership)
          (set_desired_resource_mode-Shows _ (wanted_mode (current_lease w.ownership)) th)))
