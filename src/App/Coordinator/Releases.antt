-- ===== src/App/Coordinator/Releases.antt =====
-- source/app/protocol_coordinator.c: releases, other events and service states keep the coordinator and
-- the ownership module in step, along any history.
use nx_cast.Base.{
  ℕ, ◌≡◌, ◌≢◌, inl, inr, refl, sym, ◌∙◌, subst, arith, Bool, true, false, Option, some, none,
  Bool-cases,
}
use nx_cast.Player.Ownership.{
  MediaOwner, Lease, zero_lease, lease_equal, Ownership, release, release_current,
}
use nx_cast.Player.Ownership.Leases.{
  IsFenced, lease_equal_iff, release_current-IsFenced, current-release_current,
}
use nx_cast.App.MediaSession.{Event, Session, transition}
use nx_cast.App.MediaSession.Laws.{transition-Inv}
use nx_cast.App.Coordinator.Data.{
  ResourceMode, home, Coordinator, World, Service, ServiceState, Lifecycle,
}
use nx_cast.App.Coordinator.States.{set_service_state, begin_stop}
use nx_cast.App.Coordinator.Resources.{resource_mode_for_owner}
use nx_cast.App.Coordinator.Media.{
  Transaction, is_authority, release_of, submit_event, media_released, media_release,
  media_release_current, media_abort,
}
use nx_cast.App.Coordinator.Shows.{
  Shows, recompute_state-Shows, set_service_state-Shows, apply_media_event-Shows,
  apply_media_event-refused,
}
use nx_cast.App.Coordinator.Synced.{
  IsSynced, wanted, shown-IsSynced, transition-release_of, transition-lease, media_released-Shows,
}

pub unowned_mode :
    (x : Bool) (o : Ownership) → o.current ≡ zero_lease → home ≡ wanted x o.current.owner
unfolding resource_mode_for_owner
unowned_mode x o z = ground arith

-- The coordinator's side of a release, with the player unowned.
media_released-IsSynced :
    (w : World) (o : Ownership) (now : ℕ)
    → IsSynced w
    → IsFenced o
    → o.current ≡ zero_lease
    → IsSynced (record { ownership = o; coordinator = media_released w.coordinator now })
media_released-IsSynced w o now v f z =
    shown-IsSynced o (media_released w.coordinator now)
      (transition w.coordinator.snapshot.media_session
        (release_of w.coordinator.snapshot.media_session.lease)).0
      w.coordinator.exclusive_media_resources f
      (transition-Inv w.coordinator.snapshot.media_session _ v.inv)
      (transition-release_of w.coordinator.snapshot.media_session v.inv ∙ sym z)
      (subst
        (λ (m : ResourceMode).
          Shows
            (transition w.coordinator.snapshot.media_session
              (release_of w.coordinator.snapshot.media_session.lease)).0
            m w.coordinator.exclusive_media_resources (media_released w.coordinator now))
        {x = home} {y = wanted w.coordinator.exclusive_media_resources o.current.owner}
        (unowned_mode w.coordinator.exclusive_media_resources o z)
        (media_released-Shows w.coordinator now v.shows))

unowned-IsFenced : (o : Ownership) → IsFenced o → IsFenced (record o { current = zero_lease })
unowned-IsFenced o f = ground arith

-- What a release leaves: it was refused and nothing changed, or the player is unowned.
pub data Freed (lease : Lease) (w : World) (r : Bool × World) : Type 0 where
  kept : r.0 ≡ false → r.1 ≡ w → lease ≢ w.ownership.current → Freed lease w r
  freed :
      r.0 ≡ true
      → lease ≡ w.ownership.current
      → r.1.ownership.current ≡ zero_lease
      → r.1.coordinator.snapshot.active_media ≡ zero_lease
      → r.1.coordinator.snapshot.desired_resource_mode ≡ home
      → IsSynced r.1
      → Freed lease w r

-- From a world in which coordinator and ownership agree, `protocol_coordinator_media_release` either is
-- refused, since the lease is not the current one, and changes nothing, or leaves the player unowned,
-- no media shown and the home mode wanted, with coordinator and ownership in agreement.
pub media_release-Freed :
    (w : World) (lease : Lease) (now : ℕ)
    → IsSynced w
    → Freed lease w (media_release w (some lease) now)
unfolding media_release release
media_release-Freed w lease now v = elim (Bool-cases (lease_equal lease w.ownership.current)) [
  | inr e ↦ rw e (kept refl refl (λ q. ground (arith, lease_equal_iff lease w.ownership.current)))
  | inl e ↦
      let o = record (w.ownership) { current = zero_lease } in
      let synced = media_released-IsSynced w o now v (unowned-IsFenced w.ownership v.fenced) refl in
      rw e (
        freed refl ((lease_equal_iff lease w.ownership.current).0 e) refl
          (synced.shows.media ∙ synced.mirror) (synced.shows.mode ∙ sym (unowned_mode _ o refl))
          synced)
]

Freed-IsSynced :
    (lease : Lease) (w : World) (r : Bool × World) → Freed lease w r → IsSynced w → IsSynced r.1
Freed-IsSynced lease w r (kept e same ne) v = subst IsSynced (sym same) v
Freed-IsSynced lease w r (freed e same z a m s) v = s

unreleased : (w : World) (now : ℕ) → IsSynced w → IsSynced (media_release w none now).1
unfolding media_release release
unreleased w now v = v

pub media_release-IsSynced :
    (w : World) (lease : Option Lease) (now : ℕ)
    → IsSynced w
    → IsSynced (media_release w lease now).1
media_release-IsSynced w none now v = unreleased w now v
media_release-IsSynced w (some l) now v = Freed-IsSynced l w _ (media_release-Freed w l now v) v

pub media_abort-IsSynced :
    (w : World) (t : Transaction) (now : ℕ) → IsSynced w → IsSynced (media_abort w t now).1
unfolding media_abort
media_abort-IsSynced w t now v = elim (Bool-cases t.active) [
  | inl e ↦ rw e (media_release-IsSynced w (some t.lease) now v)
  | inr e ↦ rw e v
]

pub media_release_current-IsSynced :
    (w : World) (owner : MediaOwner) (token now : ℕ)
    → IsSynced w
    → IsSynced (media_release_current w owner token now).1
unfolding media_release_current
media_release_current-IsSynced w owner token now v =
    elim (Bool-cases (release_current owner token w.ownership).0) [
      | inl e ↦ rw e (
          media_released-IsSynced w (release_current owner token w.ownership).1 now v
            (release_current-IsFenced w.ownership owner token v.fenced)
            (current-release_current w.ownership owner token e))
      | inr e ↦ rw e v
    ]

pub submit_event-IsSynced :
    (w : World) (e : Event) (now : ℕ)
    → IsSynced w
    → IsSynced (record w { coordinator = (submit_event w.coordinator e now).0 })
unfolding submit_event
submit_event-IsSynced w e now v = elim (Bool-cases (is_authority e.kind)) [
  | inl a ↦ rw (apply_media_event-refused w.coordinator e now a) v
  | inr a ↦
      shown-IsSynced w.ownership _ (transition w.coordinator.snapshot.media_session e).0
        w.coordinator.exclusive_media_resources v.fenced
        (transition-Inv w.coordinator.snapshot.media_session e v.inv)
        (transition-lease w.coordinator.snapshot.media_session e a ∙ v.mirror)
        (apply_media_event-Shows w.coordinator e false now (rw a refl) v.shows)
]

pub set_service_state-IsSynced :
    (w : World) (k : Service) (s : ServiceState) (now : ℕ)
    → IsSynced w
    → IsSynced (record w { coordinator = (set_service_state w.coordinator k s now).1 })
set_service_state-IsSynced w k s now v =
    shown-IsSynced w.ownership _ w.coordinator.snapshot.media_session
      w.coordinator.exclusive_media_resources v.fenced v.inv v.mirror
      (set_service_state-Shows w.coordinator k s now v.shows)

stopping-Shows :
    {s : Session} {m : ResourceMode} {x : Bool} (c : Coordinator)
    → Shows s m x c
    → Shows s m x (record c { lifecycle = Lifecycle.stopping })
stopping-Shows c v = record {
  session = v.session;
  media = v.media;
  mode = v.mode;
  exclusive = v.exclusive;
}

begin_stop-Shows :
    {s : Session} {m : ResourceMode} {x : Bool} (c : Coordinator)
    → Shows s m x c
    → Shows s m x (begin_stop c).1
unfolding begin_stop
begin_stop-Shows c v = ground (
  arith,
  recompute_state-Shows (record c { lifecycle = Lifecycle.stopping }) (stopping-Shows c v),
)

pub begin_stop-IsSynced :
    (w : World) → IsSynced w → IsSynced (record w { coordinator = (begin_stop w.coordinator).1 })
begin_stop-IsSynced w v =
    shown-IsSynced w.ownership _ w.coordinator.snapshot.media_session
      w.coordinator.exclusive_media_resources v.fenced v.inv v.mirror
      (begin_stop-Shows w.coordinator v.shows)
