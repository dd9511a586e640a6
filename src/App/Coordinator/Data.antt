-- ===== src/App/Coordinator/Data.antt =====
-- source/app/protocol_coordinator.h and protocol_coordinator.c: the enumerations and the state.
use nx_cast.Base.{ℕ, Bool, true, false, not, Option, none, List, [], ◌∷◌}
use nx_cast.Player.Ownership.{Lease, zero_lease, Ownership}
use nx_cast.App.MediaSession
use nx_cast.App.MediaSession.{Session}

pub data CoordinatorState : Type 0 where
  stopped starting ready media_active stopping failed : CoordinatorState

pub data Service : Type 0 where
  iptv dlna airplay : Service

pub data ServiceState : Type 0 where
  disabled stopped starting running failed : ServiceState

pub data ResourceMode : Type 0 where
  home iptv_exclusive dlna_exclusive airplay_exclusive : ResourceMode

pub data SuspensionPolicy : Type 0 where
  never media_ownership playback_activity : SuspensionPolicy

pub data Lifecycle : Type 0 where
  stopped starting running stopping : Lifecycle

-- `==` on truth values and on the enumerations.
unfoldable pub bool_eq : Bool → Bool → Bool
bool_eq true b = b
bool_eq false b = not b

unfoldable pub service_state_eq : ServiceState → ServiceState → Bool
service_state_eq ServiceState.disabled ServiceState.disabled = true
service_state_eq ServiceState.stopped ServiceState.stopped = true
service_state_eq ServiceState.starting ServiceState.starting = true
service_state_eq ServiceState.running ServiceState.running = true
service_state_eq ServiceState.failed ServiceState.failed = true
service_state_eq _ _ = false

unfoldable pub mode_eq : ResourceMode → ResourceMode → Bool
mode_eq home home = true
mode_eq iptv_exclusive iptv_exclusive = true
mode_eq dlna_exclusive dlna_exclusive = true
mode_eq airplay_exclusive airplay_exclusive = true
mode_eq _ _ = false

unfoldable pub policy_eq : SuspensionPolicy → SuspensionPolicy → Bool
policy_eq never never = true
policy_eq media_ownership media_ownership = true
policy_eq playback_activity playback_activity = true
policy_eq _ _ = false

unfoldable pub lifecycle_eq : Lifecycle → Lifecycle → Bool
lifecycle_eq Lifecycle.stopped Lifecycle.stopped = true
lifecycle_eq Lifecycle.starting Lifecycle.starting = true
lifecycle_eq Lifecycle.running Lifecycle.running = true
lifecycle_eq Lifecycle.stopping Lifecycle.stopping = true
lifecycle_eq _ _ = false

-- An array with an entry for each service.
pub record PerService {ℓ} (A : Type ℓ) : Type ℓ where
  pub of_iptv : A
  pub of_dlna : A
  pub of_airplay : A

abbrev pub at {ℓ} : {A : Type ℓ} → PerService A → Service → A
at xs iptv = xs.of_iptv
at xs dlna = xs.of_dlna
at xs airplay = xs.of_airplay

abbrev pub put {ℓ} : {A : Type ℓ} → PerService A → Service → A → PerService A
put xs iptv x = record xs { of_iptv = x }
put xs dlna x = record xs { of_dlna = x }
put xs airplay x = record xs { of_airplay = x }

abbrev pub each {ℓ} : {A : Type ℓ} → A → PerService A
each x = record { of_iptv = x; of_dlna = x; of_airplay = x }

pub record Config : Type 0 where
  pub enabled : PerService Bool
  pub serial_startup : Bool
  pub exclusive_media_resources : Bool
  pub discovery_suspension_policy : SuspensionPolicy

pub record AirplayStatus : Type 0 where
  pub running : Bool
  pub starting : Bool
  pub pin_visible : Bool
  pub pin : List ℕ  -- char[5], all of its bytes
  pub status : List ℕ  -- char[96], up to its NUL

abbrev pub zero_airplay : AirplayStatus
zero_airplay = record {
  running = false;
  starting = false;
  pin_visible = false;
  pin = 0 ∷ 0 ∷ 0 ∷ 0 ∷ 0 ∷ [];
  status = [];
}

-- Which callbacks are given.
pub record ServiceOperations : Type 0 where
  pub start : Bool
  pub request_stop : Bool
  pub stop : Bool
  pub stop_after_start_attempt : Bool

pub record Operations : Type 0 where
  pub services : PerService ServiceOperations
  pub airplay_get_status : Bool
  pub airplay_release_active_media : Bool
  pub set_discovery_suspended : Bool
  pub set_background_network_suspended : Bool

abbrev pub zero_operations : Operations
zero_operations = record {
  services = each (record {
    start = false;
    request_stop = false;
    stop = false;
    stop_after_start_attempt = false;
  });
  airplay_get_status = false;
  airplay_release_active_media = false;
  set_discovery_suspended = false;
  set_background_network_suspended = false;
}

pub data Callback : Type 0 where
  start_call request_stop_call stop_call : Service → Callback
  discovery_call background_call : Bool → Callback

pub record Worker : Type 0 where
  pub thread_started : Bool
  pub start_finished : Bool
  pub start_result : Bool

pub record ResourceWorker : Type 0 where
  pub thread_started : Bool
  pub finished : Bool
  pub result : Bool
  pub target : ResourceMode
  pub current_service : Option Service  -- `none` is PROTOCOL_SERVICE_COUNT
  pub start_call_active : Bool

pub record Snapshot : Type 0 where
  pub state : CoordinatorState
  pub services : PerService ServiceState
  pub airplay_status : AirplayStatus
  pub active_media : Lease
  pub media_session : Session
  pub desired_resource_mode : ResourceMode
  pub applied_resource_mode : ResourceMode
  pub resource_transition_active : Bool
  pub resource_transition_failed : Bool
  pub discovery_suspended : Bool
  pub revision : ℕ  -- uint32_t

pub record Coordinator : Type 0 where
  pub lifecycle : Lifecycle
  pub runtime_active : Bool
  pub serial_startup : Bool
  pub exclusive_media_resources : Bool
  pub configured_enabled : PerService Bool
  pub background_network_suspended : Bool
  pub discovery_suspension_policy : SuspensionPolicy
  pub next_service_to_start : ℕ  -- int
  pub stop_required : PerService Bool
  pub workers : PerService Worker
  pub resource_worker : ResourceWorker
  pub service_transition_ms : PerService ℕ
  pub resource_transition_ms : ℕ
  pub resource_retry_due_ms : ℕ
  pub media_claim_ms : ℕ
  pub media_ready_ms : ℕ
  pub playback_observed_generation : ℕ
  pub playback_seen_active : Bool
  pub operations : Operations
  pub snapshot : Snapshot
  pub calls : List Callback

abbrev pub zero_worker : Worker
zero_worker = record { thread_started = false; start_finished = false; start_result = false }

abbrev pub zero_resource_worker : ResourceWorker
zero_resource_worker = record {
  thread_started = false;
  finished = false;
  result = false;
  target = home;
  current_service = none;
  start_call_active = false;
}

-- What the loader and `protocol_media_session_init` leave in `g_coordinator.snapshot`.
abbrev pub zero_snapshot : ℕ → Snapshot
zero_snapshot revision = record {
  state = CoordinatorState.stopped;
  services = each ServiceState.disabled;
  airplay_status = zero_airplay;
  active_media = zero_lease;
  media_session = MediaSession.initial;
  desired_resource_mode = home;
  applied_resource_mode = home;
  resource_transition_active = false;
  resource_transition_failed = false;
  discovery_suspended = false;
  revision = revision;
}

-- `g_coordinator` before the first call.
abbrev pub initial : Coordinator
initial = record {
  lifecycle = Lifecycle.stopped;
  runtime_active = false;
  serial_startup = false;
  exclusive_media_resources = false;
  configured_enabled = each false;
  background_network_suspended = false;
  discovery_suspension_policy = never;
  next_service_to_start = 0;
  stop_required = each false;
  workers = each zero_worker;
  resource_worker = zero_resource_worker;
  service_transition_ms = each 0;
  resource_transition_ms = 0;
  resource_retry_due_ms = 0;
  media_claim_ms = 0;
  media_ready_ms = 0;
  playback_observed_generation = 0;
  playback_seen_active = false;
  operations = zero_operations;
  snapshot = zero_snapshot 0;
  calls = [];
}

-- The coordinator beside the globals of ownership.c, which its operations call.
pub record World : Type 0 where
  pub ownership : Ownership
  pub coordinator : Coordinator
