-- ===== src/App/Coordinator/Stopping.antt =====
-- source/app/protocol_coordinator.c: `protocol_coordinator_stop` and `protocol_coordinator_reset`, where
-- the worker threads that are joined have nothing left to do.
use nx_cast.Base.{ℕ, Bool, true, false, not, ◌&&◌, ◌||◌, if◌then◌else◌}
use nx_cast.App.Coordinator.Data.{
  Service, iptv, dlna, airplay, ServiceState, never, service_state_eq, at, each, request_stop_call,
  stop_call, zero_operations, zero_resource_worker, Coordinator, World,
}
use nx_cast.App.Coordinator.States.{called, set_service_state, begin_stop, finish_stop, reset_all}
use nx_cast.App.Coordinator.Resources.{set_background}

-- Whether a service is asked to stop.
unfoldable pub asks_stop : Coordinator → Service → Bool
asks_stop c service =
    c.runtime_active
    && not (service_state_eq (at c.snapshot.services service) ServiceState.disabled)
    && (at c.operations.services service).request_stop

unfoldable pub request_stops : Coordinator → Coordinator
request_stops c =
    called
      (called (called c (asks_stop c airplay) (request_stop_call airplay)) (asks_stop c dlna)
        (request_stop_call dlna))
      (asks_stop c iptv) (request_stop_call iptv)

-- The joins, past which no thread is started.
unfoldable pub join_workers : Coordinator → Coordinator
join_workers c = record c {
  resource_worker = record c.resource_worker { thread_started = false };
  workers = record {
    of_iptv = record (c.workers.of_iptv) { thread_started = false };
    of_dlna = record (c.workers.of_dlna) { thread_started = false };
    of_airplay = record (c.workers.of_airplay) { thread_started = false };
  };
}

-- A turn of the loop that stops the services.
unfoldable pub stop_running : Coordinator → Service → ℕ → Coordinator
stop_running c service now =
    if not c.runtime_active || not (at c.stop_required service)
    then c
    else (set_service_state (called c true (stop_call service)) service ServiceState.stopped now).1

-- What comes before `protocol_coordinator_finish_stop`.
unfoldable pub stop_services : Coordinator → ℕ → Coordinator
stop_services c now =
    let c' = join_workers (request_stops c) in
    stop_running (stop_running (stop_running c' airplay now) dlna now) iptv now

-- The last locked region.
unfoldable pub cleared : Coordinator → Coordinator
cleared c = record c {
  operations = zero_operations;
  stop_required = each false;
  runtime_active = false;
  serial_startup = false;
  exclusive_media_resources = false;
  configured_enabled = each false;
  resource_worker = zero_resource_worker;
  discovery_suspension_policy = never;
  next_service_to_start = 0;
}

-- What comes after it; the answer of the callback is not read.
unfoldable pub clear_after_stop : World → World
clear_after_stop w = record w { coordinator = cleared (set_background w.coordinator false true).1 }

-- `protocol_coordinator_stop`.
unfoldable pub stop_runtime : World → ℕ → World
stop_runtime w now =
    if (begin_stop w.coordinator).0
    then clear_after_stop (
        finish_stop (record w { coordinator = stop_services (begin_stop w.coordinator).1 now }) now)
    else w

-- `protocol_coordinator_reset`.
unfoldable pub reset_coordinator : World → ℕ → World
reset_coordinator w now = reset_all (if w.coordinator.runtime_active then stop_runtime w now else w)
