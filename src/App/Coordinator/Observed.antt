-- ===== src/App/Coordinator/Observed.antt =====
-- source/app/protocol_coordinator.c: the main loop's synchronisation and the player's observations keep
-- the coordinator and the ownership module in step.
use nx_cast.Base.{
  ℕ, ◌≡◌, inl, inr, refl, sym, ap, ◌∙◌, subst, arith, Bool, true, false, ◌&&◌, Option, some, none,
  if◌then◌else◌, Bool-cases,
}
use nx_cast.Player.Ownership.{MediaOwner, owner_eq, Lease, current_lease, Ownership}
use nx_cast.Player.Ownership.Leases.{owner_eq_iff, lease_equal_iff}
use nx_cast.App.MediaSession.{EventKind, ended, Session}
use nx_cast.App.Coordinator.Data.{ResourceMode, home, Coordinator, World, playback_activity}
use nx_cast.App.Coordinator.Resources.{resource_mode_for_owner, set_desired_resource_mode}
use nx_cast.App.Coordinator.Media.{sync_event, wanted_mode}
use nx_cast.App.Coordinator.Playback.{
  PlayerState, set_playback_active, tell_active, observe_generation, note_ready, observed,
  release_observed, observe_playback, submit_state, state_event, state_active, state_terminal,
  observe_player_state, event_of,
}
use nx_cast.App.Coordinator.Shows.{
  Shows, set_desired_resource_mode-Shows, apply_discovery_suspension-Shows,
}
use nx_cast.App.Coordinator.Synced.{IsSynced, wanted, shown-IsSynced}
use nx_cast.App.Coordinator.Releases.{media_release-IsSynced, submit_event-IsSynced}

sync_event-held :
    (c : Coordinator) (l : Lease) (now : ℕ)
    → c.snapshot.media_session.lease ≡ l
    → sync_event c (true, l) now ≡ c
unfolding sync_event
sync_event-held c l now m = rw ((lease_equal_iff c.snapshot.media_session.lease l).1 m) refl

sync_event-free :
    (c : Coordinator) (l : Lease) (now : ℕ)
    → owner_eq c.snapshot.media_session.lease.owner MediaOwner.none ≡ true
    → sync_event c (false, l) now ≡ c
unfolding sync_event
sync_event-free c l now e = rw e refl

sync_event-same :
    (w : World) (now : ℕ)
    → IsSynced w
    → sync_event w.coordinator (current_lease w.ownership) now ≡ w.coordinator
unfolding current_lease
sync_event-same w now v = elim (Bool-cases (owner_eq w.ownership.current.owner MediaOwner.none)) [
  | inl e ↦ rw e (
      sync_event-free w.coordinator w.ownership.current now
        (ap (λ (l : Lease). owner_eq l.owner MediaOwner.none) v.mirror ∙ e))
  | inr e ↦ rw e (sync_event-held w.coordinator w.ownership.current now v.mirror)
]

pub wanted_mode-owner :
    (x : Bool) (o : Ownership)
    → (if x then wanted_mode (current_lease o) else home) ≡ wanted x o.current.owner
unfolding current_lease resource_mode_for_owner
wanted_mode-owner x o = elim (Bool-cases (owner_eq o.current.owner MediaOwner.none)) [
  | inl e ↦ rw e (
      ap (λ (k : MediaOwner). if x then resource_mode_for_owner k else home)
        (sym ((owner_eq_iff o.current.owner MediaOwner.none).0 e)))
  | inr e ↦ rw e refl
]

-- The regions of `coordinator_sync_active_media`, with a reading of the ownership that still holds.
pub sync_event-IsSynced :
    (w : World) (now : ℕ)
    → IsSynced w
    → IsSynced (record w { coordinator = sync_event w.coordinator (current_lease w.ownership) now })
sync_event-IsSynced w now v = rw (sync_event-same w now v) v

pub sync_mode-IsSynced :
    (w : World)
    → IsSynced w
    → IsSynced (record w {
      coordinator =
          set_desired_resource_mode w.coordinator (wanted_mode (current_lease w.ownership));
    })
sync_mode-IsSynced w v =
    shown-IsSynced w.ownership _ w.coordinator.snapshot.media_session
      w.coordinator.exclusive_media_resources v.fenced v.inv v.mirror
      (subst
        (λ (m : ResourceMode).
          Shows w.coordinator.snapshot.media_session m w.coordinator.exclusive_media_resources
            (set_desired_resource_mode w.coordinator (wanted_mode (current_lease w.ownership))))
        (wanted_mode-owner w.coordinator.exclusive_media_resources w.ownership)
        (set_desired_resource_mode-Shows w.coordinator (wanted_mode (current_lease w.ownership))
          v.shows))

tell_active-IsSynced :
    (w : World) (active : Bool) (now : ℕ)
    → IsSynced w
    → IsSynced (record w { coordinator = tell_active w active now })
unfolding tell_active set_playback_active
tell_active-IsSynced w active now v =
    let v' : IsSynced (record w { coordinator = set_playback_active w.coordinator active }) =
      shown-IsSynced w.ownership _ w.coordinator.snapshot.media_session
        w.coordinator.exclusive_media_resources v.fenced v.inv v.mirror
        (apply_discovery_suspension-Shows w.coordinator active (some playback_activity) v.shows) in
    elim (Bool-cases (active && (current_lease w.ownership).0)) [
      | inl e ↦ rw e (
          submit_event-IsSynced
            (record w { coordinator = set_playback_active w.coordinator active })
            (event_of EventKind.active w.ownership.current) now v')
      | inr e ↦ rw e v'
    ]

observed-Shows :
    {s : Session} {m : ResourceMode} {x : Bool} (c : Coordinator) (active terminal : Bool) (now : ℕ)
    → Shows s m x c
    → Shows s m x (observed c active terminal now).1
unfolding observed observe_generation note_ready
observed-Shows c active terminal now v = ground arith

release_observed-IsSynced :
    (w : World) (l : Lease) (now : ℕ) → IsSynced w → IsSynced (release_observed w l now)
unfolding release_observed
release_observed-IsSynced w l now v =
    media_release-IsSynced _ (some l) now (submit_event-IsSynced w (event_of ended l) now v)

pub observe_playback-IsSynced :
    (w : World) (active terminal : Bool) (now : ℕ)
    → IsSynced w
    → IsSynced (observe_playback w active terminal now)
unfolding observe_playback
observe_playback-IsSynced w active terminal now v =
    let told = tell_active-IsSynced w active now v in
    let c = tell_active w active now in
    let seen : IsSynced (record w { coordinator = (observed c active terminal now).1 }) =
      shown-IsSynced w.ownership _ c.snapshot.media_session c.exclusive_media_resources told.fenced
        told.inv told.mirror (observed-Shows c active terminal now told.shows) in
    elim (Bool-cases (observed c active terminal now).0) [
      | inl e ↦ rw e (release_observed-IsSynced _ _ now seen)
      | inr e ↦ rw e seen
    ]

submit_state-IsSynced :
    (w : World) (k : Option EventKind) (now : ℕ) → IsSynced w → IsSynced (submit_state w k now)
unfolding submit_state
submit_state-IsSynced w none now v = v
submit_state-IsSynced w (some k) now v =
    submit_event-IsSynced w (event_of k w.ownership.current) now v

pub observe_player_state-IsSynced :
    (w : World) (s : PlayerState) (now : ℕ) → IsSynced w → IsSynced (observe_player_state w s now)
unfolding observe_player_state
observe_player_state-IsSynced w s now v = elim (Bool-cases (current_lease w.ownership).0) [
  | inl e ↦ rw e (
      observe_playback-IsSynced _ (state_active s) (state_terminal s) now
        (submit_state-IsSynced w (state_event s) now v))
  | inr e ↦ rw e (observe_playback-IsSynced w false (state_terminal s) now v)
]
