-- ===== src/App/Coordinator/Resources.antt =====
-- source/app/protocol_coordinator.c: the resource modes, and the worker that starts and stops services
-- until they fit the wanted mode. Between one service and the next, and before the worker's first and last
-- regions, other threads may act: `others n` is what they do in the n-th of these gaps. Within the turn
-- for one service the worker's locked regions follow one another.
use nx_cast.Base.{
  ℕ, ◌+◌, Bool, true, false, not, ◌&&◌, ◌||◌, Option, some, none, ◌∷◌, if◌then◌else◌, ltb, u64,
}
use nx_cast.Player.Ownership.{MediaOwner}
use nx_cast.App.Coordinator.Data.{
  Service, iptv, dlna, airplay, ServiceState, ResourceMode, home, iptv_exclusive, dlna_exclusive,
  airplay_exclusive, Lifecycle, bool_eq, service_state_eq, mode_eq, lifecycle_eq, PerService, at,
  put, start_call, request_stop_call, stop_call, background_call, zero_resource_worker,
  zero_airplay, Coordinator,
}
use nx_cast.App.Coordinator.States.{bump, called, set_service_state}

unfoldable pub resource_mode_for_owner : MediaOwner → ResourceMode
resource_mode_for_owner MediaOwner.iptv = iptv_exclusive
resource_mode_for_owner MediaOwner.dlna = dlna_exclusive
resource_mode_for_owner MediaOwner.airplay_video = airplay_exclusive
resource_mode_for_owner MediaOwner.airplay_mirror = airplay_exclusive
resource_mode_for_owner MediaOwner.none = home

unfoldable pub owner_is_airplay : MediaOwner → Bool
owner_is_airplay MediaOwner.airplay_video = true
owner_is_airplay MediaOwner.airplay_mirror = true
owner_is_airplay _ = false

-- Whether a start call that is under way for another mode is to be told to stop.
unfoldable pub stop_requested : Coordinator → ResourceMode → Option Service → Coordinator
stop_requested c target none = c
stop_requested c target (some service) =
    called c
      (c.snapshot.resource_transition_active
        && not (mode_eq c.resource_worker.target target)
        && c.resource_worker.start_call_active
        && (at c.operations.services service).request_stop)
      (request_stop_call service)

abbrev pub mode_target : Coordinator → ResourceMode → ResourceMode
mode_target c mode = if c.exclusive_media_resources then mode else home

unfoldable pub desire : Coordinator → ResourceMode → Coordinator
desire c target = bump (record c {
  resource_retry_due_ms = 0;
  snapshot = record c.snapshot {
    desired_resource_mode = target;
    resource_transition_failed = false;
  };
})

unfoldable pub set_desired_resource_mode : Coordinator → ResourceMode → Coordinator
set_desired_resource_mode c mode =
    if not (mode_eq c.snapshot.desired_resource_mode (mode_target c mode))
    then stop_requested (desire c (mode_target c mode)) (mode_target c mode)
        c.resource_worker.current_service
    else c

-- `coordinator_set_background_network_suspended`; `answer` is the callback's.
unfoldable pub set_background : Coordinator → Bool → Bool → Bool × Coordinator
set_background c suspended answer =
    let c' = record c { background_network_suspended = suspended } in
    if (not (bool_eq c.background_network_suspended suspended) || suspended)
      && c.operations.set_background_network_suspended
    then (answer, record c' { calls = background_call suspended ∷ c.calls })
    else (true, c')

unfoldable pub mode_runs : ResourceMode → Service → Bool
mode_runs mode iptv = true
mode_runs mode dlna = mode_eq mode home || mode_eq mode dlna_exclusive
mode_runs mode airplay = mode_eq mode home || mode_eq mode airplay_exclusive

unfoldable pub service_required : ResourceMode → Service → PerService Bool → Bool
service_required mode service enabled =
    if not (at enabled service) then false else mode_runs mode service

unfoldable pub service_matches : Coordinator → ResourceMode → Service → Bool
service_matches c mode service =
    if not (at c.configured_enabled service)
    then service_state_eq (at c.snapshot.services service) ServiceState.disabled
    else if service_required mode service c.configured_enabled
    then service_state_eq (at c.snapshot.services service) ServiceState.running
    else service_state_eq (at c.snapshot.services service) ServiceState.stopped

unfoldable pub services_match : Coordinator → ResourceMode → Bool
services_match c mode =
    service_matches c mode iptv && service_matches c mode dlna && service_matches c mode airplay

unfoldable pub transition_allowed : Coordinator → Bool
transition_allowed c =
    c.runtime_active
    && not (lifecycle_eq c.lifecycle Lifecycle.stopping)
    && not (lifecycle_eq c.lifecycle Lifecycle.stopped)

unfoldable pub target_current : Coordinator → ResourceMode → Bool
target_current c target = mode_eq c.snapshot.desired_resource_mode target

abbrev pub set_start_call : Coordinator → Option Service → Bool → Coordinator
set_start_call c service active = record c {
  resource_worker = record c.resource_worker {
    current_service = service;
    start_call_active = active;
  };
}

unfoldable pub clear_airplay_status : Coordinator → Coordinator
clear_airplay_status c =
    if c.snapshot.airplay_status.running || c.snapshot.airplay_status.starting
      || c.snapshot.airplay_status.pin_visible
    then bump (record c { snapshot = record c.snapshot { airplay_status = zero_airplay } })
    else c

abbrev pub clear_if_airplay : Service → Coordinator → Coordinator
clear_if_airplay airplay c = clear_airplay_status c
clear_if_airplay iptv c = c
clear_if_airplay dlna c = c

abbrev pub set_stop_required : Coordinator → Service → Bool → Coordinator
set_stop_required c service required = record c {
  stop_required = put c.stop_required service required;
}

-- The calls of `coordinator_resource_stop_service`.
unfoldable pub stop_calls : Coordinator → Service → Coordinator
stop_calls c service =
    called (called c (at c.operations.services service).request_stop (request_stop_call service))
      (at c.stop_required service) (stop_call service)

unfoldable pub stop_service : Coordinator → Service → ℕ → Coordinator
stop_service c service now =
    clear_if_airplay service
      (set_service_state (set_stop_required (stop_calls c service) service false) service
        ServiceState.stopped now).1

abbrev pub started_state : Bool → ServiceState
started_state started = if started then ServiceState.running else ServiceState.failed

-- From the call of `start` on; `started` is its answer.
unfoldable pub start_region : Coordinator → Service → ℕ → Bool → Coordinator
start_region c service now started =
    let c' =
      called (set_service_state c service ServiceState.starting now).1 true (start_call service) in
    (set_service_state
      (set_stop_required c' service
        (started || (at c.operations.services service).stop_after_start_attempt))
      service (started_state started) now).1

abbrev pub cleaned : Coordinator → Service → ℕ → Coordinator
cleaned c service now = if at c.stop_required service then stop_service c service now else c

unfoldable pub start_service : Coordinator → Service → ℕ → Bool → Bool × Coordinator
start_service c service now started =
    if not (transition_allowed (cleaned c service now))
    then (false, cleaned c service now)
    else (started, start_region (cleaned c service now) service now started)

-- One turn of a loop of `coordinator_resource_worker_run`: go on, with the success so far, or finish.
pub data Turn : Type 0 where
  continued : Bool → Coordinator → Turn
  finished : Bool → Coordinator → Turn

unfoldable pub turn_coordinator : Turn → Coordinator
turn_coordinator (continued success c) = c
turn_coordinator (finished success c) = c

abbrev pub interrupted : Coordinator → ResourceMode → Bool
interrupted c target = not (transition_allowed c) || not (target_current c target)

unfoldable pub stop_turn : ResourceMode → ℕ → Service → Bool → Coordinator → Turn
stop_turn target now service success c =
    if interrupted c target
    then finished success c
    else if service_state_eq (at c.snapshot.services service) ServiceState.disabled
        || service_state_eq (at c.snapshot.services service) ServiceState.stopped
        || service_required target service c.configured_enabled
    then continued success c
    else continued success (stop_service c service now)

unfoldable pub start_turn : ResourceMode → ℕ → PerService Bool → Service → Bool → Coordinator → Turn
start_turn target now answers service success c =
    if interrupted c target
    then finished success c
    else if not (service_required target service c.configured_enabled)
        || service_state_eq (at c.snapshot.services service) ServiceState.running
    then continued success c
    else let attempt =
        start_service (set_start_call c (some service) true) service now (at answers service) in
      continued (success && attempt.0) (set_start_call attempt.1 none false)

-- What other threads do in the gaps of a run.
abbrev pub Others : Type 0
Others = ℕ → Coordinator → Coordinator

-- The next turn, after a gap.
abbrev pub then_turn : (Coordinator → Coordinator) → Turn → (Bool → Coordinator → Turn) → Turn
then_turn gap (continued success c) f = f success (gap c)
then_turn gap (finished success c) f = finished success c

unfoldable pub stop_loop : Others → ResourceMode → ℕ → Bool → Coordinator → Turn
stop_loop others target now success c =
    then_turn (others 2)
      (then_turn (others 1) (stop_turn target now airplay success c) (stop_turn target now dlna))
      (stop_turn target now iptv)

unfoldable pub start_loop : Others → ResourceMode → ℕ → PerService Bool → Bool → Coordinator → Turn
start_loop others target now answers success c =
    then_turn (others 5)
      (then_turn (others 4) (start_turn target now answers iptv success c)
        (start_turn target now answers dlna))
      (start_turn target now answers airplay)

-- Past both loops: the run is complete if the target is still the wanted one.
unfoldable pub complete : ResourceMode → Bool → Bool → Coordinator → Turn
complete target answer success c =
    if not (target_current c target)
    then finished success c
    else if mode_eq target home
    then (let b = set_background c false answer in continued (success && b.0) b.1)
    else continued success c

-- The region at the label `finished`.
abbrev pub ended : Coordinator → Bool → Coordinator
ended c result = record c {
  resource_worker = record c.resource_worker { result = result; finished = true };
  snapshot = record c.snapshot { resource_transition_active = false };
}

unfoldable pub finish_worker : ResourceMode → ℕ → Turn → Coordinator
finish_worker target now (finished success c) = bump (ended c false)
finish_worker target now (continued true c) =
    let c' = ended c true in
    bump (record c' {
      resource_retry_due_ms = 0;
      snapshot = record (c'.snapshot) {
        applied_resource_mode = target;
        resource_transition_failed = false;
      };
    })
finish_worker target now (continued false c) =
    let c' = ended c false in
    bump (record c' {
      resource_retry_due_ms = u64 (now + 1000);
      snapshot = record (c'.snapshot) { resource_transition_failed = true };
    })

-- The answers of the callbacks during one run of the worker.
pub record Answers : Type 0 where
  pub suspend : Bool
  pub starts : PerService Bool
  pub resume : Bool

abbrev pub suspend_first : Coordinator → ResourceMode → Bool → Bool × Coordinator
suspend_first c target answer =
    if not (mode_eq target home) then set_background c true answer else (true, c)

unfoldable pub worker_turns : Others → Coordinator → ResourceMode → ℕ → Answers → Turn
worker_turns others c target now answers =
    let first = suspend_first c target answers.suspend in
    then_turn (others 6)
      (then_turn (others 3) (stop_loop others target now first.0 (others 0 first.1))
        (start_loop others target now answers.starts))
      (complete target answers.resume)

unfoldable pub worker_run : Others → Coordinator → ℕ → Answers → Coordinator
worker_run others c now answers =
    finish_worker c.resource_worker.target now
      (then_turn (others 7) (worker_turns others c c.resource_worker.target now answers) continued)

-- `coordinator_launch_resource_worker`; `created` says whether the thread was created.
unfoldable pub launch_refused : Coordinator → ℕ → Bool
launch_refused c now =
    not c.runtime_active
    || not c.exclusive_media_resources
    || c.resource_worker.thread_started
    || lifecycle_eq c.lifecycle Lifecycle.stopping
    || lifecycle_eq c.lifecycle Lifecycle.stopped
    || (mode_eq c.snapshot.desired_resource_mode c.snapshot.applied_resource_mode
        && services_match c c.snapshot.desired_resource_mode)
    || (c.snapshot.resource_transition_failed && ltb now c.resource_retry_due_ms)

abbrev pub worker_active : Coordinator → Bool
worker_active c =
    c.workers.of_iptv.thread_started || c.workers.of_dlna.thread_started
    || c.workers.of_airplay.thread_started

unfoldable pub prepared : Coordinator → ℕ → Coordinator
prepared c now = bump (record c {
  resource_worker = record zero_resource_worker { target = c.snapshot.desired_resource_mode };
  resource_transition_ms = now;
  snapshot = record c.snapshot {
    resource_transition_active = true;
    resource_transition_failed = false;
  };
})

unfoldable pub launch_failed : Coordinator → ℕ → Coordinator
launch_failed c now = bump (record c {
  resource_retry_due_ms = u64 (now + 1000);
  snapshot = record c.snapshot {
    resource_transition_active = false;
    resource_transition_failed = true;
  };
})

unfoldable pub launch_resource_worker : Coordinator → ℕ → Bool → Bool × Coordinator
launch_resource_worker c now created =
    if launch_refused c now || worker_active c
    then (false, c)
    else if created
    then (
      true,
      record (prepared c now) {
        resource_worker = record ((prepared c now).resource_worker) { thread_started = true };
      },
    )
    else (false, launch_failed (prepared c now) now)
