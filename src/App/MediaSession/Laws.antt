-- ===== src/App/MediaSession/Laws.antt =====
-- What one event does to the session of source/app/protocol_media_session.c, and what holds
-- between two events.
use nx_cast.Base.{ℕ, ◌<◌, ◌≡◌, ◌≢◌, ◌↔◌, ◌⊎◌, true, List, [], ◌∷◌, arith, u32_mod}
use nx_cast.Player.Ownership.{MediaOwner, Lease, zero_lease}
use nx_cast.Player.Ownership.Leases.{owner_eq_iff, lease_equal_iff}
use nx_cast.App.MediaSession.{
  Lifecycle, idle, preparing, loading, stopping, Playback, Control, Event, Session, applied,
  lifecycle_eq, playback_eq, control_eq, lease_valid, bump_revision, initial, transition,
}

pub lifecycle_eq_iff : (a b : Lifecycle) → (lifecycle_eq a b ≡ true) ↔ (a ≡ b)
unfolding lifecycle_eq
lifecycle_eq_iff a b = ground arith

pub playback_eq_iff : (a b : Playback) → (playback_eq a b ≡ true) ↔ (a ≡ b)
unfolding playback_eq
playback_eq_iff a b = ground arith

pub control_eq_iff : (a b : Control) → (control_eq a b ≡ true) ↔ (a ≡ b)
unfolding control_eq
control_eq_iff a b = ground arith

pub lease_valid_iff :
    (l : Lease) → (lease_valid l ≡ true) ↔ ((l.owner ≢ MediaOwner.none) × (l.generation ≢ 0))
unfolding lease_valid
lease_valid_iff l = ground (arith, owner_eq_iff l.owner MediaOwner.none)

pub bump_revision_fresh :
    (r : ℕ)
    → r < u32_mod
    → (bump_revision r ≢ 0) × (bump_revision r < u32_mod) × (bump_revision r ≢ r)
unfolding bump_revision
bump_revision_fresh r h = ground arith

-- The revision counts the changes: an event whose status is `applied` moves the revision to its
-- successor, which is never 0, and an event with any other status leaves the whole session alone.
pub transition-revision :
    (s : Session) (e : Event)
    → s.revision < u32_mod
    → let r = transition s e in
      ((r.1 ≡ applied)
        × (r.0.revision ≡ bump_revision s.revision)
        × (r.0.revision ≢ s.revision)
        × (r.0.revision ≢ 0))
      ⊎ ((r.1 ≢ applied) × (r.0 ≡ s))
unfolding transition
transition-revision s e h = ground (
  arith,
  bump_revision_fresh s.revision,
  lifecycle_eq_iff s.lifecycle loading,
  lifecycle_eq_iff s.lifecycle Lifecycle.active,
  lifecycle_eq_iff s.lifecycle stopping,
  lifecycle_eq_iff s.lifecycle Lifecycle.failed,
  playback_eq_iff s.playback Playback.unknown,
  playback_eq_iff s.playback Playback.playing,
  playback_eq_iff s.playback Playback.paused,
  control_eq_iff s.control Control.attached,
  control_eq_iff s.control Control.detached,
)

-- An event that is not applied leaves the session as it was.
pub transition-same :
    (s : Session) (e : Event) → (transition s e).1 ≢ applied → (transition s e).0 ≡ s
unfolding transition
transition-same s e h = ground (
  arith,
  lifecycle_eq_iff s.lifecycle loading,
  lifecycle_eq_iff s.lifecycle Lifecycle.active,
  lifecycle_eq_iff s.lifecycle stopping,
  lifecycle_eq_iff s.lifecycle Lifecycle.failed,
  playback_eq_iff s.playback Playback.unknown,
  playback_eq_iff s.playback Playback.playing,
  playback_eq_iff s.playback Playback.paused,
  control_eq_iff s.control Control.attached,
  control_eq_iff s.control Control.detached,
)

-- An idle session has no lease and knows nothing; any other has a valid lease; and the player
-- state is known only from the moment the session is active.
pub record Inv (s : Session) : Type 0 where
  pub idle_clear :
      s.lifecycle ≡ idle
      → (s.lease ≡ zero_lease) × (s.playback ≡ Playback.unknown) × (s.control ≡ Control.unknown)
  pub busy_leased : s.lifecycle ≢ idle → lease_valid s.lease ≡ true
  pub early_unknown :
      (s.lifecycle ≡ preparing) ⊎ (s.lifecycle ≡ loading) → s.playback ≡ Playback.unknown

pub initial-Inv : Inv initial
initial-Inv = ground arith

-- Every event, with any lease, keeps the invariant.
pub transition-Inv : (s : Session) (e : Event) → Inv s → Inv (transition s e).0
unfolding transition
transition-Inv s e v = ground (
  arith,
  lease_equal_iff s.lease e.lease,
  lease_valid_iff s.lease,
  lease_valid_iff e.lease,
  lifecycle_eq_iff s.lifecycle idle,
  lifecycle_eq_iff s.lifecycle stopping,
  lifecycle_eq_iff s.lifecycle Lifecycle.failed,
)

unfoldable pub run : Session → List Event → Session
run s [] = s
run s (e ∷ es) = run (transition s e).0 es

pub run-Inv : (s : Session) (es : List Event) → Inv s → Inv (run s es)
unfolding run
run-Inv s [] v = v
run-Inv s (e ∷ es) v = run-Inv (transition s e).0 es (transition-Inv s e v)
