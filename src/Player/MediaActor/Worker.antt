-- ===== src/Player/MediaActor/Worker.antt =====
-- source/player/core/media_actor.c: the worker's locked regions, and start, activate, quiesce and stop.
use nx_cast.Base.{
  ℕ, zero, suc, ◌-◌, leb, ltb, Bool, true, false, not, ◌&&◌, ◌||◌, Option, some, none, List, [],
  ◌∷◌, ◌==◌, if◌then◌else◌,
}
use nx_cast.Player.MediaActor.Commands.{
  SubmitStatus, Request, Health, Actor, bump, queue_pop_locked, request_complete_locked,
}

-- `actor_reject_pending_locked`: the loop, on fuel; the completed requests, in order.
unfoldable pub reject_next : ℕ → Option Request × Actor → List Request × Actor
reject_next _ (none, a) = ([], a)
reject_next zero (some r, a) = ([], a)
reject_next (suc fuel) (some r, a) =
    let rest = reject_next fuel (
      queue_pop_locked (record a {
        health = record a.health { rejected_stopping = bump a.health.rejected_stopping };
      })) in
    (request_complete_locked r SubmitStatus.shutting_down ∷ rest.0, rest.1)

unfoldable pub reject_pending : Actor → List Request × Actor
reject_pending a = reject_next a.queue.count (queue_pop_locked a)

-- `actor_worker_run`: a command is taken and becomes the current one.
unfoldable pub mark_current : Option Request → Actor → ℕ → Actor
mark_current none a now = a
mark_current (some r) a now = record a {
  health = record a.health {
    current_command_id = r.command.command_id;
    current_command_kind = r.command.kind;
    current_command_producer = r.command.producer;
    current_session_token = r.command.session_token;
    current_generation = r.command.generation;
  };
  current_command_started_ms = now;
  last_heartbeat_ms = now;
}

unfoldable pub take_command : Actor → ℕ → Option Request × Actor
take_command a now =
    if a.stopping || not a.health.dispatch_enabled
    then (none, a)
    else let popped = queue_pop_locked a in (popped.0, mark_current popped.0 popped.1 now)

-- `actor_execute_request`, after the callbacks answered `valid` and `ok`.
unfoldable pub completion : Bool → Bool → SubmitStatus
completion false ok = SubmitStatus.stale
completion true true = SubmitStatus.executed
completion true false = SubmitStatus.execution_failed

unfoldable pub finish_request : Actor → Request → ℕ → Bool → Bool → Actor × Request
finish_request a r now valid ok = (
  record a {
    health = record a.health {
      rejected_stale = if valid then a.health.rejected_stale else bump a.health.rejected_stale;
      executed = if valid then bump a.health.executed else a.health.executed;
      execution_failed =
          if valid && not ok then bump a.health.execution_failed else a.health.execution_failed;
      last_completed_command_id = r.command.command_id;
      current_command_id = 0;
      current_command_kind = 0;
      current_command_producer = 0;
      current_session_token = 0;
      current_generation = 0;
    };
    current_command_started_ms = 0;
    last_heartbeat_ms = now;
  },
  request_complete_locked r (completion valid ok),
)

-- `actor_initialize_worker`, after `initialize` answered.
unfoldable pub initialized_health : Actor → ℕ → Bool → Actor
initialized_health a now initialized = record a {
  health = record a.health {
    initializing = false;
    ready = initialized;
    initialization_failed = not initialized;
    dispatch_enabled = initialized && a.dispatch_requested;
  };
  last_heartbeat_ms = now;
}

unfoldable pub initialize_worker : Actor → ℕ → Bool → List Request × Actor
initialize_worker a now true = ([], initialized_health a now true)
initialize_worker a now false =
    let b = initialized_health a now false in
    reject_pending (record b {
      running = false;
      accepting = false;
      health = record b.health { running = false; accepting = false };
    })

-- `actor_finish_worker`, the second locked region.
unfoldable pub worker_finished : Actor → ℕ → Actor
worker_finished a now = record a {
  running = false;
  accepting = false;
  dispatch_requested = false;
  worker_identity_valid = false;
  health = record a.health {
    running = false;
    stopping = true;
    accepting = false;
    ready = false;
    dispatch_enabled = false;
  };
  last_heartbeat_ms = now;
}

-- `actor_thread_main`, and the end of `actor_worker_run` after a failed initialisation.
unfoldable pub set_worker_identity : Actor → Bool → Actor
set_worker_identity a valid = record a { worker_identity_valid = valid }

-- `media_actor_start`, the first locked region; `none` says that no thread is to be created.
unfoldable pub mark_started : Actor → ℕ → Actor
mark_started a now = record a {
  stopping = false;
  accepting = true;
  dispatch_requested = not a.config.start_suspended;
  running = true;
  health = record a.health {
    running = true;
    stopping = false;
    accepting = true;
    initializing = a.config.initialize;
    ready = not a.config.initialize;
    initialization_failed = false;
    dispatch_enabled = not a.config.initialize && not a.config.start_suspended;
  };
  last_heartbeat_ms = now;
}

unfoldable pub start : Actor → ℕ → Option Actor
start a now =
    if a.running || a.thread_started || not (a.queue.count == 0)
    then none
    else some (mark_started a now)

unfoldable pub mark_start_failed : Actor → Actor
mark_start_failed a = record a {
  running = false;
  accepting = false;
  dispatch_requested = false;
  health = record a.health {
    running = false;
    accepting = false;
    initializing = false;
    ready = false;
    initialization_failed = true;
    dispatch_enabled = false;
  };
}

unfoldable pub thread_created : Actor → Actor
thread_created a = record a { thread_started = true }

unfoldable pub enable_dispatch : Actor → Actor
enable_dispatch a = record a {
  dispatch_requested = true;
  health = record a.health { dispatch_enabled = a.health.ready };
}

unfoldable pub activate : Actor → Bool × Actor
activate a =
    if a.running && not a.stopping && not a.health.initialization_failed
    then (true, enable_dispatch a)
    else (false, a)

unfoldable pub quiesce : Actor → Actor
quiesce a = record a { accepting = false; health = record a.health { accepting = false } }

-- `media_actor_stop` on the worker.
unfoldable pub request_stop : Actor → Actor
request_stop a = record a {
  stopping = true;
  accepting = false;
  health = record a.health { stopping = true; accepting = false };
}

-- `media_actor_stop` elsewhere, once no join is in progress, before and after the thread is joined.
unfoldable pub begin_stop : Actor → Bool × Actor
begin_stop a =
    if a.thread_started
    then (true, record (request_stop a) { join_in_progress = true })
    else (false, a)

unfoldable pub joined : Actor → Actor
joined a = record a {
  thread_started = false;
  join_in_progress = false;
  running = false;
  health = record a.health { running = false };
}

-- The test of `media_actor_wait_idle`.
unfoldable pub is_idle : Actor → Bool
is_idle a = (a.queue.count == 0) && (a.health.current_command_id == 0)

-- The times that `media_actor_get_health` adds: 0 when nothing was noted, or the clock went back.
unfoldable pub age_of : ℕ → ℕ → ℕ
age_of noted now = if ltb 0 noted && leb noted now then now - noted else 0

unfoldable pub get_health : Actor → ℕ → Health × (ℕ × ℕ)
get_health a now =
    (a.health, (age_of a.current_command_started_ms now, age_of a.last_heartbeat_ms now))
