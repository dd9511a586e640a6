-- ===== src/App/Coordinator/Media.antt =====
-- source/app/protocol_coordinator.c: the media transactions, which join the ownership module to the
-- coordinator's media session. What runs between `player_ownership_transition_begin` and `_end`
-- is one step.
use nx_cast.Base.{ℕ, Bool, true, false, not, ◌&&◌, ◌||◌, Option, some, none, if◌then◌else◌, ◌==◌}
use nx_cast.Player.Ownership.{
  MediaOwner, owner_eq, Lease, zero_lease, lease_equal, claim, current_lease, validate, release,
  release_current,
}
use nx_cast.App.MediaSession.{
  EventKind, claimed, released, reset, Event, Session, Status, applied, invalid, idle, transition,
  lifecycle_eq,
}
use nx_cast.App.Coordinator.Data.{ResourceMode, home, media_ownership, mode_eq, Coordinator, World}
use nx_cast.App.Coordinator.States.{
  bump, recompute_state, accepts_media, accepts_guard, apply_discovery_suspension,
}
use nx_cast.App.Coordinator.Resources.{
  resource_mode_for_owner, owner_is_airplay, set_desired_resource_mode,
}

pub record Transaction : Type 0 where
  pub active : Bool
  pub lease : Lease
  pub previous : Lease

abbrev pub zero_transaction : Transaction
zero_transaction = record { active = false; lease = zero_lease; previous = zero_lease }

pub record Guard : Type 0 where
  pub active : Bool
  pub lease : Lease

abbrev pub zero_guard : Guard
zero_guard = record { active = false; lease = zero_lease }

-- What an applied event leaves beside the session itself.
unfoldable pub session_applied : Coordinator → Session → ℕ → Coordinator
session_applied c s now =
    let c' = record c {
      snapshot = record c.snapshot { media_session = s; active_media = s.lease };
    } in
    bump (
      recompute_state (
        if lifecycle_eq s.lifecycle idle
        then record c' {
          playback_observed_generation = 0;
          playback_seen_active = false;
          media_claim_ms = 0;
          media_ready_ms = 0;
        }
        else if not (s.lease.generation == c.snapshot.media_session.lease.generation)
        then record c' {
          playback_observed_generation = s.lease.generation;
          playback_seen_active = false;
          media_claim_ms = now;
          media_ready_ms = 0;
        }
        else c'))

abbrev pub after_transition : Coordinator → ℕ → Session × Status → Coordinator × Status
after_transition c now (s, applied) = (session_applied c s now, applied)
after_transition c now (s, status) =
    (record c { snapshot = record c.snapshot { media_session = s } }, status)

unfoldable pub is_authority : EventKind → Bool
is_authority claimed = true
is_authority released = true
is_authority reset = true
is_authority _ = false

unfoldable pub apply_media_event : Coordinator → Event → Bool → ℕ → Coordinator × Status
apply_media_event c event allow_authority_event now =
    if not allow_authority_event && is_authority event.kind
    then (c, invalid)
    else after_transition c now (transition c.snapshot.media_session event)

unfoldable pub submit_event : Coordinator → Event → ℕ → Coordinator × Status
submit_event c event now = apply_media_event c event false now

abbrev pub claim_of : Lease → Event
claim_of lease = record { kind = claimed; lease = lease }

abbrev pub release_of : Lease → Event
release_of lease = record { kind = released; lease = lease }

-- `coordinator_set_active_media`.
unfoldable pub set_active_media : Coordinator → Option Lease → ℕ → Coordinator
set_active_media c (some lease) now = (apply_media_event c (claim_of lease) true now).0
set_active_media c none now =
    (apply_media_event c (release_of c.snapshot.media_session.lease) true now).0

-- What a claim or a release does to the coordinator.
unfoldable pub media_claimed : Coordinator → Lease → ℕ → Coordinator
media_claimed c lease now =
    apply_discovery_suspension
      (set_desired_resource_mode (set_active_media c (some lease) now)
        (resource_mode_for_owner lease.owner))
      true (some media_ownership)

unfoldable pub media_released : Coordinator → ℕ → Coordinator
media_released c now =
    apply_discovery_suspension (set_desired_resource_mode (set_active_media c none now) home) false
      (some media_ownership)

-- `player_ownership_current` inside the transition: another family of protocols holds the player.
unfoldable pub excluded : World → MediaOwner → Bool
excluded w owner =
    w.coordinator.exclusive_media_resources
    && (current_lease w.ownership).0
    && not (
        mode_eq (resource_mode_for_owner w.ownership.current.owner) (resource_mode_for_owner owner))

unfoldable pub claim_region : World → MediaOwner → ℕ → ℕ → Transaction × World
claim_region w owner token now =
    let taken = claim owner token true w.ownership in
    if not (accepts_media w.coordinator) || excluded w owner
    then (zero_transaction, w)
    else if not taken.ok
    then (zero_transaction, w)
    else (
      record { active = true; lease = taken.lease; previous = taken.previous },
      record { ownership = taken.after; coordinator = media_claimed w.coordinator taken.lease now },
    )

-- `release_airplay` is the callback `airplay_release_active_media`.
unfoldable pub release_airplay_owner : (Lease → World → Bool × World) → World → Bool × World
release_airplay_owner release_airplay w =
    if w.coordinator.operations.airplay_release_active_media
    then release_airplay w.ownership.current w
    else (false, w)

-- `protocol_coordinator_media_begin`; its result is `active`.
unfoldable pub media_begin :
    (Lease → World → Bool × World) → World → MediaOwner → ℕ → ℕ → Transaction × World
media_begin release_airplay w owner token now =
    if owner_eq owner MediaOwner.none || not (accepts_media w.coordinator)
    then (zero_transaction, w)
    else if excluded w owner && owner_is_airplay w.ownership.current.owner
    then (let freed = release_airplay_owner release_airplay w in
        if freed.0 then claim_region freed.1 owner token now else (zero_transaction, freed.1))
    else claim_region w owner token now

unfoldable pub media_release : World → Option Lease → ℕ → Bool × World
media_release w lease now =
    let result = release lease w.ownership in
    if result.0
    then (true, record { ownership = result.1; coordinator = media_released w.coordinator now })
    else (false, w)

unfoldable pub media_release_current : World → MediaOwner → ℕ → ℕ → Bool × World
media_release_current w owner token now =
    let result = release_current owner token w.ownership in
    if result.0
    then (true, record { ownership = result.1; coordinator = media_released w.coordinator now })
    else (false, w)

unfoldable pub media_end : Transaction → Transaction
media_end t = if not t.active then t else record t { active = false }

unfoldable pub media_abort : World → Transaction → ℕ → Transaction × World
media_abort w t now =
    if not t.active then (t, w) else (media_end t, (media_release w (some t.lease) now).1)

unfoldable pub guard_begin : World → MediaOwner → ℕ → Guard
guard_begin w owner token =
    if owner_eq owner MediaOwner.none || not (accepts_media w.coordinator)
    then zero_guard
    else if not (current_lease w.ownership).0
        || not (owner_eq w.ownership.current.owner owner)
        || not (w.ownership.current.token == token)
    then zero_guard
    else record { active = true; lease = w.ownership.current }

-- `protocol_coordinator_media_unowned_or_owner_guard_begin`.
unfoldable pub unowned_guard_begin : World → MediaOwner → ℕ → Guard
unowned_guard_begin w owner token =
    if owner_eq owner MediaOwner.none || not (accepts_guard false w.coordinator)
    then zero_guard
    else if (current_lease w.ownership).0
        && (not (owner_eq w.ownership.current.owner owner)
            || not (w.ownership.current.token == token))
    then zero_guard
    else record { active = true; lease = w.ownership.current }

unfoldable pub lease_guard_begin : World → Lease → Bool → Guard
lease_guard_begin w lease allow_stopping =
    if owner_eq lease.owner MediaOwner.none || not (accepts_guard allow_stopping w.coordinator)
    then zero_guard
    else if not (validate (some lease) w.ownership)
    then zero_guard
    else record { active = true; lease = lease }

unfoldable pub barrier_begin : World → Guard
barrier_begin w = record { active = true; lease = w.ownership.current }

-- `coordinator_sync_active_media`: it reads the ownership, and then tells the coordinator.
unfoldable pub sync_event : Coordinator → Bool × Lease → ℕ → Coordinator
sync_event c (true, current) now =
    if not (lease_equal c.snapshot.media_session.lease current)
    then (apply_media_event c (claim_of current) true now).0
    else c
sync_event c (false, current) now =
    if not (owner_eq c.snapshot.media_session.lease.owner MediaOwner.none)
    then (apply_media_event c (release_of c.snapshot.media_session.lease) true now).0
    else c

abbrev pub wanted_mode : Bool × Lease → ResourceMode
wanted_mode (true, current) = resource_mode_for_owner current.owner
wanted_mode (false, current) = home

unfoldable pub sync_active_media : Coordinator → Bool × Lease → ℕ → Coordinator
sync_active_media c current now =
    apply_discovery_suspension
      (set_desired_resource_mode (sync_event c current now) (wanted_mode current)) current.0
      (some media_ownership)
