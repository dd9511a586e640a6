-- ===== src/App/MediaSession.antt =====
-- source/app/protocol_media_session.h and protocol_media_session.c: the lifecycle of the one media
-- session, driven by events that carry an ownership lease. `transition` returns the new session
-- and the status; a NULL session or event, which returns `invalid`, is left out, since both are
-- addresses of variables at every call.
pub mod Laws
pub mod Graph
pub mod Claims
mod Tests
use nx_cast.Base.{
  ℕ, ◌+◌, ◌-◌, Bool, true, false, not, ◌&&◌, ◌||◌, ltb, ◌==◌, if◌then◌else◌, u32, sub_u32,
}
use nx_cast.Player.Ownership.{MediaOwner, owner_eq, Lease, zero_lease, lease_equal}

pub data Lifecycle : Type 0 where
  idle preparing loading active stopping failed : Lifecycle

pub data Playback : Type 0 where
  unknown playing paused : Playback

pub data Control : Type 0 where
  unknown attached detached : Control

pub data EventKind : Type 0 where
  claimed load_requested active playing paused control_attached control_detached stop_requested
        ended failed released reset :
      EventKind

pub record Event : Type 0 where
  pub kind : EventKind
  pub lease : Lease

pub record Session : Type 0 where
  pub lease : Lease
  pub lifecycle : Lifecycle
  pub playback : Playback
  pub control : Control
  pub revision : ℕ  -- uint32_t

pub data Status : Type 0 where
  applied no_change stale invalid : Status

pub lifecycle_eq : Lifecycle → Lifecycle → Bool
lifecycle_eq idle idle = true
lifecycle_eq preparing preparing = true
lifecycle_eq loading loading = true
lifecycle_eq active active = true
lifecycle_eq stopping stopping = true
lifecycle_eq failed failed = true
lifecycle_eq _ _ = false

pub playback_eq : Playback → Playback → Bool
playback_eq unknown unknown = true
playback_eq playing playing = true
playback_eq paused paused = true
playback_eq _ _ = false

pub control_eq : Control → Control → Bool
control_eq unknown unknown = true
control_eq attached attached = true
control_eq detached detached = true
control_eq _ _ = false

unfoldable pub lease_valid : Lease → Bool
lease_valid lease = not (owner_eq lease.owner MediaOwner.none) && not (lease.generation == 0)

-- `(int32_t)(candidate - current) > 0`.
unfoldable pub generation_newer : ℕ → ℕ → Bool
generation_newer candidate current =
    let d = sub_u32 candidate current in not (d == 0) && ltb d 2147483648

unfoldable pub bump_revision : ℕ → ℕ
bump_revision r = let r' = u32 (r + 1) in if r' == 0 then u32 (r' + 1) else r'

bump : Session → Session
bump s = record s { revision = bump_revision s.revision }

abbrev pub initial : Session
initial = record {
  lease = zero_lease;
  lifecycle = idle;
  playback = Playback.unknown;
  control = Control.unknown;
  revision = 0;
}

apply_claim : Session → Lease → Session × Status
unfolding bump
apply_claim s lease =
    if not (lease_valid lease)
    then (s, invalid)
    else if lease_equal s.lease lease
    then (s, no_change)
    else if not (s.lease.generation == 0)
        && not (generation_newer lease.generation s.lease.generation)
    then (s, stale)
    else (
      bump (record s {
        lease = lease;
        lifecycle = preparing;
        playback = Playback.unknown;
        control = Control.unknown;
      }),
      applied,
    )

apply_reset : Session → Session × Status
unfolding bump
apply_reset s =
    if lifecycle_eq s.lifecycle idle && owner_eq s.lease.owner MediaOwner.none
    then (s, no_change)
    else (bump (record initial { revision = s.revision }), applied)

-- The lifecycles in which the playback events are refused.
is_closing : Session → Bool
is_closing s = lifecycle_eq s.lifecycle stopping || lifecycle_eq s.lifecycle failed

-- The end of `protocol_media_session_transition`: `after` is the session with its fields set.
finish : Bool → Session → Session × Status
unfolding bump
finish changed after = if changed then (bump after, applied) else (after, no_change)

-- The `switch`, behind the lease check.
dispatch : EventKind → Session → Session × Status
unfolding apply_reset is_closing finish
dispatch load_requested s =
    if is_closing s
    then (s, invalid)
    else finish
        (not (lifecycle_eq s.lifecycle loading) || not (playback_eq s.playback Playback.unknown))
        (record s { lifecycle = loading; playback = Playback.unknown })
dispatch EventKind.active s =
    if is_closing s
    then (s, invalid)
    else finish (not (lifecycle_eq s.lifecycle Lifecycle.active))
        (record s { lifecycle = Lifecycle.active })
dispatch EventKind.playing s =
    if is_closing s
    then (s, invalid)
    else finish
        (not (lifecycle_eq s.lifecycle Lifecycle.active)
          || not (playback_eq s.playback Playback.playing))
        (record s { lifecycle = Lifecycle.active; playback = Playback.playing })
dispatch EventKind.paused s =
    if is_closing s
    then (s, invalid)
    else finish
        (not (lifecycle_eq s.lifecycle Lifecycle.active)
          || not (playback_eq s.playback Playback.paused))
        (record s { lifecycle = Lifecycle.active; playback = Playback.paused })
dispatch control_attached s =
    if is_closing s
    then (s, invalid)
    else finish (not (control_eq s.control attached)) (record s { control = attached })
dispatch control_detached s =
    if is_closing s
    then (s, invalid)
    else finish (not (control_eq s.control detached)) (record s { control = detached })
dispatch stop_requested s =
    finish (not (lifecycle_eq s.lifecycle stopping)) (record s { lifecycle = stopping })
dispatch ended s =
    finish (not (lifecycle_eq s.lifecycle stopping)) (record s { lifecycle = stopping })
dispatch EventKind.failed s =
    if lifecycle_eq s.lifecycle stopping
    then (s, invalid)
    else finish (not (lifecycle_eq s.lifecycle Lifecycle.failed))
        (record s { lifecycle = Lifecycle.failed })
dispatch released s = apply_reset s
dispatch claimed s = (s, invalid)
dispatch reset s = (s, invalid)

-- An event that names the current lease; any other is stale.
addressed : Event → Session → Session × Status
unfolding dispatch
addressed e s =
    if not (lease_valid e.lease) || not (lease_equal s.lease e.lease)
    then (s, stale)
    else dispatch e.kind s

route : EventKind → Event → Session → Session × Status
unfolding apply_claim apply_reset addressed
route reset e s = apply_reset s
route claimed e s = apply_claim s e.lease
route _ e s = addressed e s

-- `protocol_media_session_transition`.
unfoldable pub transition : Session → Event → Session × Status
unfolding route
transition s e = route e.kind e s
