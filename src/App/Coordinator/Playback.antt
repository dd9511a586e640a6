-- ===== src/App/Coordinator/Playback.antt =====
-- source/app/protocol_coordinator.c: what the player's state does to the media session, and the
-- main loop's tick. `observe_playback` releases the player when its owner's media is over.
use nx_cast.Base.{
  ℕ, ◌-◌, Bool, true, false, not, ◌&&◌, ◌||◌, Option, some, none, if◌then◌else◌, ◌==◌, ltb, leb,
}
use nx_cast.Base.Text.{bytes_eq}
use nx_cast.Player.Ownership.{MediaOwner, owner_eq, Lease, current_lease}
use nx_cast.App.MediaSession.{EventKind, Event, load_requested, ended}
use nx_cast.App.Coordinator.Data.{
  airplay, ServiceState, playback_activity, Lifecycle, mode_eq, bool_eq, lifecycle_eq, at,
  AirplayStatus, Coordinator, World,
}
use nx_cast.App.Coordinator.States.{bump, set_service_state, apply_discovery_suspension}
use nx_cast.App.Coordinator.Resources.{services_match}
use nx_cast.App.Coordinator.Media.{submit_event, media_release}

pub data PlayerState : Type 0 where
  idle stopped loading buffering seeking playing paused error : PlayerState

abbrev pub event_of : EventKind → Lease → Event
event_of kind lease = record { kind = kind; lease = lease }

unfoldable pub set_playback_active : Coordinator → Bool → Coordinator
set_playback_active c active = apply_discovery_suspension c active (some playback_activity)

-- The first event of `protocol_coordinator_observe_playback`.
unfoldable pub tell_active : World → Bool → ℕ → Coordinator
tell_active w active now =
    let c = set_playback_active w.coordinator active in
    if active && (current_lease w.ownership).0
    then (submit_event c (event_of EventKind.active w.ownership.current) now).0
    else c

unfoldable pub observe_generation : Coordinator → ℕ → Coordinator
observe_generation c now =
    if not (c.playback_observed_generation == c.snapshot.active_media.generation)
    then record c {
      playback_observed_generation = c.snapshot.active_media.generation;
      playback_seen_active = false;
      media_claim_ms = now;
    }
    else c

abbrev pub note_active : Coordinator → Bool → Coordinator
note_active c active =
    if active then record c { playback_seen_active = true; media_ready_ms = 0 } else c

unfoldable pub resource_ready : Coordinator → Bool
resource_ready c =
    mode_eq c.snapshot.desired_resource_mode c.snapshot.applied_resource_mode
    && not c.snapshot.resource_transition_active
    && not c.snapshot.resource_transition_failed
    && services_match c c.snapshot.desired_resource_mode

unfoldable pub note_ready : Coordinator → Bool → Bool → ℕ → Coordinator
note_ready c active terminal now =
    if not active && terminal && not c.playback_seen_active
    then (if not (resource_ready c)
        then record c { media_ready_ms = 0 }
        else if c.media_ready_ms == 0
        then record c { media_ready_ms = now }
        else c)
    else c

abbrev pub grace_ms : ℕ
grace_ms = 1000

unfoldable pub release_due : Coordinator → Bool → ℕ → Bool
release_due c terminal now =
    terminal
    && (c.playback_seen_active
        || (ltb 0 c.media_ready_ms
            && leb c.media_ready_ms now
            && leb grace_ms (now - c.media_ready_ms)))

-- The locked region: the coordinator it leaves, and whether the media is to be released.
unfoldable pub observed : Coordinator → Bool → Bool → ℕ → Bool × Coordinator
observed c active terminal now =
    if c.exclusive_media_resources && not (owner_eq c.snapshot.active_media.owner MediaOwner.none)
    then (let c' = note_ready (note_active (observe_generation c now) active) active terminal now in
        (release_due c' terminal now, c'))
    else (false, c)

unfoldable pub release_observed : World → Lease → ℕ → World
release_observed w lease now =
    (media_release
      (record w { coordinator = (submit_event w.coordinator (event_of ended lease) now).0 })
      (some lease) now).1

unfoldable pub observe_playback : World → Bool → Bool → ℕ → World
observe_playback w active terminal now =
    let seen = observed (tell_active w active now) active terminal now in
    if seen.0
    then release_observed (record w { coordinator = seen.1 }) seen.1.snapshot.active_media now
    else record w { coordinator = seen.1 }

-- The event, `active` and `terminal` of each player state while somebody owns the player.
unfoldable pub state_event : PlayerState → Option EventKind
state_event loading = some load_requested
state_event buffering = some load_requested
state_event seeking = some EventKind.active
state_event playing = some EventKind.playing
state_event paused = some EventKind.paused
state_event error = some EventKind.failed
state_event _ = none

unfoldable pub state_active : PlayerState → Bool
state_active seeking = true
state_active playing = true
state_active paused = true
state_active _ = false

unfoldable pub state_terminal : PlayerState → Bool
state_terminal idle = true
state_terminal stopped = true
state_terminal error = true
state_terminal _ = false

unfoldable pub submit_state : World → Option EventKind → ℕ → World
submit_state w none now = w
submit_state w (some kind) now = record w {
  coordinator = (submit_event w.coordinator (event_of kind w.ownership.current) now).0;
}

unfoldable pub observe_player_state : World → PlayerState → ℕ → World
observe_player_state w state now =
    if (current_lease w.ownership).0
    then observe_playback (submit_state w (state_event state) now) (state_active state)
        (state_terminal state) now
    else observe_playback w false (state_terminal state) now

unfoldable pub airplay_status_equal : AirplayStatus → AirplayStatus → Bool
airplay_status_equal left right =
    bool_eq left.running right.running
    && bool_eq left.starting right.starting
    && bool_eq left.pin_visible right.pin_visible
    && bytes_eq left.pin right.pin
    && bytes_eq left.status right.status

unfoldable pub poll_airplay : Coordinator → Bool
poll_airplay c =
    c.runtime_active
    && at c.stop_required airplay
    && not (lifecycle_eq c.lifecycle Lifecycle.stopping)
    && not (lifecycle_eq c.lifecycle Lifecycle.stopped)

abbrev pub polled_state : AirplayStatus → ServiceState
polled_state s =
    if s.running
    then ServiceState.running
    else if s.starting
    then ServiceState.starting
    else ServiceState.failed

abbrev pub status_noted : Coordinator → AirplayStatus → Coordinator
status_noted c s =
    if not (airplay_status_equal c.snapshot.airplay_status s)
    then bump (record c { snapshot = record c.snapshot { airplay_status = s } })
    else c

-- The end of `protocol_coordinator_tick`; `answer` is that of `airplay_get_status`.
unfoldable pub note_airplay : Coordinator → Option AirplayStatus → ℕ → Coordinator
note_airplay c none now = c
note_airplay c (some s) now =
    if poll_airplay c
    then (set_service_state (status_noted c s) airplay (polled_state s) now).1
    else c
