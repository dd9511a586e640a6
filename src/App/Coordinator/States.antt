-- ===== src/App/Coordinator/States.antt =====
-- source/app/protocol_coordinator.c: the coordinator's state, the services' states, start and stop.
use nx_cast.Base.{
  ℕ, ◌+◌, Bool, true, false, not, ◌&&◌, ◌||◌, Option, some, none, ◌∷◌, if◌then◌else◌, ◌==◌, u32,
}
use nx_cast.Player.Ownership.{MediaOwner, owner_eq, zero_lease, reset}
use nx_cast.App.MediaSession
use nx_cast.App.Coordinator.Data.{
  CoordinatorState, Service, ServiceState, home, SuspensionPolicy, never, Lifecycle, bool_eq,
  service_state_eq, policy_eq, lifecycle_eq, PerService, at, put, each, Config, ServiceOperations,
  Operations, zero_operations, Callback, discovery_call, zero_worker, zero_resource_worker,
  Coordinator, World, zero_snapshot,
}

unfoldable pub bump_revision : ℕ → ℕ
bump_revision r = let r' = u32 (r + 1) in if r' == 0 then u32 (r' + 1) else r'

abbrev pub bump : Coordinator → Coordinator
bump c = record c { snapshot = record c.snapshot { revision = bump_revision c.snapshot.revision } }

abbrev pub has_state : PerService ServiceState → ServiceState → Bool
has_state services state =
    service_state_eq services.of_iptv state
    || service_state_eq services.of_dlna state
    || service_state_eq services.of_airplay state

-- The state while the lifecycle is neither stopped nor stopping, past the start.
unfoldable pub running_state : Coordinator → CoordinatorState
running_state c =
    if not (owner_eq c.snapshot.active_media.owner MediaOwner.none)
    then CoordinatorState.media_active
    else if has_state c.snapshot.services ServiceState.running
    then CoordinatorState.ready
    else if has_state c.snapshot.services ServiceState.failed
    then CoordinatorState.failed
    else CoordinatorState.ready

abbrev pub set_state : Coordinator → CoordinatorState → Coordinator
set_state c state = record c { snapshot = record c.snapshot { state = state } }

unfoldable pub recompute_state : Coordinator → Coordinator
recompute_state c =
    if lifecycle_eq c.lifecycle Lifecycle.stopped
    then set_state c CoordinatorState.stopped
    else if lifecycle_eq c.lifecycle Lifecycle.stopping
    then set_state c CoordinatorState.stopping
    else if lifecycle_eq c.lifecycle Lifecycle.starting
        && has_state c.snapshot.services ServiceState.starting
    then set_state c CoordinatorState.starting
    else set_state (record c { lifecycle = Lifecycle.running }) (running_state c)

unfoldable pub accepts_media : Coordinator → Bool
accepts_media c =
    lifecycle_eq c.lifecycle Lifecycle.starting || lifecycle_eq c.lifecycle Lifecycle.running

unfoldable pub accepts_guard : Bool → Coordinator → Bool
accepts_guard allow_stopping c =
    lifecycle_eq c.lifecycle Lifecycle.starting
    || lifecycle_eq c.lifecycle Lifecycle.running
    || (allow_stopping && lifecycle_eq c.lifecycle Lifecycle.stopping)

abbrev pub service_ok : Bool → ServiceOperations → Bool
service_ok enabled o = not (enabled && (not o.start || not o.stop))

unfoldable pub operations_valid : Config → Operations → Bool
operations_valid config o =
    if not (policy_eq config.discovery_suspension_policy never) && not o.set_discovery_suspended
    then false
    else if config.exclusive_media_resources && not o.set_background_network_suspended
    then false
    else if config.exclusive_media_resources
        && config.enabled.of_airplay
        && not o.airplay_release_active_media
    then false
    else if not (
        service_ok config.enabled.of_iptv o.services.of_iptv
        && service_ok config.enabled.of_dlna o.services.of_dlna
        && service_ok config.enabled.of_airplay o.services.of_airplay)
    then false
    else not (config.enabled.of_airplay && not o.airplay_get_status)

abbrev pub first_state : Bool → ServiceState
first_state enabled = if enabled then ServiceState.starting else ServiceState.disabled

-- The assignments of `protocol_coordinator_begin_start`.
unfoldable pub begun : Coordinator → Config → ℕ → Coordinator
begun c config now = bump (
    recompute_state (record c {
      lifecycle = Lifecycle.starting;
      media_claim_ms = 0;
      media_ready_ms = 0;
      playback_observed_generation = 0;
      playback_seen_active = false;
      exclusive_media_resources = config.exclusive_media_resources;
      configured_enabled = config.enabled;
      discovery_suspension_policy = config.discovery_suspension_policy;
      service_transition_ms = each now;
      snapshot = record c.snapshot {
        media_session = MediaSession.initial;
        active_media = zero_lease;
        desired_resource_mode = home;
        applied_resource_mode = home;
        resource_transition_active = false;
        resource_transition_failed = false;
        discovery_suspended = false;
        services = record {
          of_iptv = first_state config.enabled.of_iptv;
          of_dlna = first_state config.enabled.of_dlna;
          of_airplay = first_state config.enabled.of_airplay;
        };
      };
    }))

unfoldable pub begin_start : Coordinator → Config → ℕ → Bool × Coordinator
begin_start c config now =
    if not (lifecycle_eq c.lifecycle Lifecycle.stopped)
    then (false, c)
    else (true, begun c config now)

-- The assignments of `protocol_coordinator_start` behind those of `protocol_coordinator_begin_start`.
unfoldable pub assign_start : Coordinator → Config → Operations → ℕ → Coordinator
assign_start c config operations now = record (begun c config now) {
  operations = operations;
  runtime_active = true;
  serial_startup = config.serial_startup;
  exclusive_media_resources = config.exclusive_media_resources;
  configured_enabled = config.enabled;
  next_service_to_start = 0;
}

-- `protocol_coordinator_start`, up to the threads that it launches.
unfoldable pub start : Coordinator → Config → Operations → ℕ → Bool × Coordinator
start c config operations now =
    if not (operations_valid config operations)
    then (false, c)
    else if not (begin_start c config now).0
    then (false, c)
    else (true, assign_start c config operations now)

unfoldable pub state_changed : Coordinator → Service → ServiceState → ℕ → Coordinator
state_changed c service state now = bump (
    recompute_state (record c {
      snapshot = record c.snapshot { services = put c.snapshot.services service state };
      service_transition_ms = put c.service_transition_ms service now;
    }))

unfoldable pub set_service_state : Coordinator → Service → ServiceState → ℕ → Bool × Coordinator
set_service_state c service state now =
    if lifecycle_eq c.lifecycle Lifecycle.stopped
    then (false, c)
    else if not (service_state_eq (at c.snapshot.services service) state)
    then (true, state_changed c service state now)
    else (true, c)

unfoldable pub begin_stop : Coordinator → Bool × Coordinator
begin_stop c =
    if lifecycle_eq c.lifecycle Lifecycle.stopped || lifecycle_eq c.lifecycle Lifecycle.stopping
    then (false, c)
    else (true, bump (recompute_state (record c { lifecycle = Lifecycle.stopping })))

-- `coordinator_apply_discovery_suspension`.
unfoldable pub discovery_target : Coordinator → Bool → Bool
discovery_target c suspended = suspended && c.runtime_active && c.operations.set_discovery_suspended

abbrev pub called : Coordinator → Bool → Callback → Coordinator
called c given call = if given then record c { calls = call ∷ c.calls } else c

unfoldable pub suspend_discovery : Coordinator → Bool → Coordinator
suspend_discovery c target =
    if not (bool_eq c.snapshot.discovery_suspended target)
    then called (bump (record c { snapshot = record c.snapshot { discovery_suspended = target } }))
        c.operations.set_discovery_suspended (discovery_call target)
    else c

unfoldable pub apply_discovery_suspension :
    Coordinator → Bool → Option SuspensionPolicy → Coordinator
apply_discovery_suspension c suspended none = suspend_discovery c (discovery_target c suspended)
apply_discovery_suspension c suspended (some policy) =
    if not (policy_eq c.discovery_suspension_policy policy)
    then c
    else suspend_discovery c (discovery_target c suspended)

abbrev pub stopped_state : ServiceState → ServiceState
stopped_state state =
    if service_state_eq state ServiceState.disabled then state else ServiceState.stopped

abbrev pub stopped_ms : ServiceState → ℕ → ℕ → ℕ
stopped_ms state old now = if service_state_eq state ServiceState.disabled then old else now

-- The locked region of `protocol_coordinator_finish_stop`.
unfoldable pub stopped_region : Coordinator → ℕ → Coordinator
stopped_region c now = bump (
    recompute_state (record c {
      lifecycle = Lifecycle.stopped;
      discovery_suspension_policy = never;
      media_claim_ms = 0;
      media_ready_ms = 0;
      playback_observed_generation = 0;
      playback_seen_active = false;
      service_transition_ms = record {
        of_iptv = stopped_ms c.snapshot.services.of_iptv c.service_transition_ms.of_iptv now;
        of_dlna = stopped_ms c.snapshot.services.of_dlna c.service_transition_ms.of_dlna now;
        of_airplay =
            stopped_ms c.snapshot.services.of_airplay c.service_transition_ms.of_airplay now;
      };
      snapshot = record c.snapshot {
        services = record {
          of_iptv = stopped_state c.snapshot.services.of_iptv;
          of_dlna = stopped_state c.snapshot.services.of_dlna;
          of_airplay = stopped_state c.snapshot.services.of_airplay;
        };
        media_session = MediaSession.initial;
        active_media = zero_lease;
        desired_resource_mode = home;
        applied_resource_mode = home;
        resource_transition_active = false;
        resource_transition_failed = false;
      };
    }))

unfoldable pub finish_stop : World → ℕ → World
finish_stop w now = record {
  ownership = reset w.ownership;
  coordinator = stopped_region (apply_discovery_suspension w.coordinator false none) now;
}

-- The locked regions of `protocol_coordinator_reset`, behind the stop of an active runtime.
unfoldable pub reset_all : World → World
reset_all w = record {
  ownership = reset w.ownership;
  coordinator = record w.coordinator {
    lifecycle = Lifecycle.stopped;
    runtime_active = false;
    serial_startup = false;
    exclusive_media_resources = false;
    configured_enabled = each false;
    background_network_suspended = false;
    discovery_suspension_policy = never;
    next_service_to_start = 0;
    stop_required = each false;
    workers = each zero_worker;
    resource_worker = zero_resource_worker;
    service_transition_ms = each 0;
    resource_transition_ms = 0;
    resource_retry_due_ms = 0;
    media_claim_ms = 0;
    media_ready_ms = 0;
    playback_observed_generation = 0;
    playback_seen_active = false;
    operations = zero_operations;
    snapshot = zero_snapshot (bump_revision w.coordinator.snapshot.revision);
  };
}
