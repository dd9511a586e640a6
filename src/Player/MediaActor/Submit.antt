-- ===== src/Player/MediaActor/Submit.antt =====
-- source/player/core/media_actor.c: `actor_submit`, its locked regions.
use nx_cast.Base.{
  ℕ, ◌-◌, Bool, true, false, not, ◌&&◌, ◌||◌, Option, some, none, ◌==◌, if◌then◌else◌, leb, ltb,
}
use nx_cast.Player.MediaActor.Ring.{ring_last, ring_set_last, ring_map}
use nx_cast.Player.MediaActor.Commands.{
  SubmitStatus, Command, Request, Actor, bump, command_valid, command_uses_reserved_slot,
  command_is_replaceable, command_can_replace, request_create, queue_push_locked,
  request_complete_locked,
}

-- The test that a caller passes before anything else: running, then not stopping and accepting.
unfoldable pub reject_stopping : Actor → Actor
reject_stopping a = record a {
  health = record a.health { rejected_stopping = bump a.health.rejected_stopping };
}

-- The request that takes the place of the last one in the queue, with the one it replaces.
unfoldable pub coalesce : Actor → Request → Request → Actor × Request
coalesce a request queued =
    let id = bump a.health.last_command_id in
    (
      record a {
        queue = ring_set_last a.config.capacity a.queue (record request {
          command = record (request.command) { command_id = id };
          references = 1;
        });
        health = record a.health {
          last_command_id = id;
          submitted = bump a.health.submitted;
          coalesced = bump a.health.coalesced;
        };
      },
      request_complete_locked queued SubmitStatus.accepted,
    )

-- The queued request that the command replaces, if there is one.
unfoldable pub replaceable_with : Request → Command → Option Request
replaceable_with queued c =
    if (queued.references == 1) && command_can_replace queued.command c then some queued else none

unfoldable pub check_last : Option Request → Command → Option Request
check_last none c = none
check_last (some queued) c = replaceable_with queued c

unfoldable pub replaced_request : Actor → Bool → Command → Option Request
replaced_request a wait c =
    if not wait && command_is_replaceable c.kind && ltb 0 a.queue.count
    then check_last (ring_last a.config.capacity a.queue) c
    else none

unfoldable pub queue_is_full : Actor → ℕ → Bool
queue_is_full a kind =
    leb a.config.capacity a.queue.count
    || (not (command_uses_reserved_slot kind)
        && leb (a.config.capacity - a.config.reserved_capacity) a.queue.count)

unfoldable pub reject_full : Actor → Actor
reject_full a = record a {
  health = record a.health { rejected_full = bump a.health.rejected_full };
}

-- `++last_command_id` and `++submitted`.
unfoldable pub count_submitted : Actor → Actor
count_submitted a = record a {
  health = record a.health {
    last_command_id = bump a.health.last_command_id;
    submitted = bump a.health.submitted;
  };
}

-- The request is numbered, referenced by the queue and by a caller that waits, and pushed.
unfoldable pub push_request : Actor → Bool → Request → Actor
push_request a wait request = queue_push_locked (count_submitted a) (record request {
  command = record (request.command) { command_id = bump a.health.last_command_id };
  references = if wait then 2 else 1;
})

-- The end of the locked region: the queue is full, or the request is pushed.
unfoldable pub enqueue : Actor → Bool → Request → Actor × SubmitStatus
enqueue a wait request =
    if queue_is_full a request.command.kind
    then (reject_full a, SubmitStatus.queue_full)
    else (push_request a wait request, SubmitStatus.accepted)

unfoldable pub replace_or_enqueue : Actor → Bool → Request → Option Request → Actor × SubmitStatus
replace_or_enqueue a wait request (some queued) =
    ((coalesce a request queued).0, SubmitStatus.accepted)
replace_or_enqueue a wait request none = enqueue a wait request

-- From the check of `running` on, for a request that `request_create` made. A caller that waits goes
-- on to wait when it is told `accepted`.
unfoldable pub admit : Actor → Bool → Request → Actor × SubmitStatus
admit a wait request =
    if not a.running
    then (a, SubmitStatus.not_running)
    else if a.stopping || not a.accepting
    then (reject_stopping a, SubmitStatus.shutting_down)
    else replace_or_enqueue a wait request (replaced_request a wait request.command)

unfoldable pub admit_created : Actor → Bool → Option Request → Actor × SubmitStatus
admit_created a wait none = (a, SubmitStatus.no_memory)
admit_created a wait (some request) = admit a wait request

-- `actor_submit` of a caller that is not the worker, up to the wait.
unfoldable pub submit : Actor → Bool → Bool → Command → Actor × SubmitStatus
submit a wait memory c =
    if not (command_valid c)
    then (a, SubmitStatus.invalid)
    else admit_created a wait (request_create memory c)

-- `actor_submit` of the worker itself with `wait`: the command runs at once. `valid` and `ok` are the
-- answers of `validate` and `execute`.
unfoldable pub direct_result : Actor → ℕ → ℕ → Bool → Bool → Actor × SubmitStatus
direct_result a id now false ok = (
  record a {
    health = record a.health {
      rejected_stale = bump a.health.rejected_stale;
      last_completed_command_id = id;
    };
    last_heartbeat_ms = now;
  },
  SubmitStatus.stale,
)
direct_result a id now true ok = (
  record a {
    health = record a.health {
      executed = bump a.health.executed;
      execution_failed = if ok then a.health.execution_failed else bump a.health.execution_failed;
      last_completed_command_id = id;
    };
    last_heartbeat_ms = now;
  },
  if ok then SubmitStatus.executed else SubmitStatus.execution_failed,
)

unfoldable pub submit_direct : Actor → Command → ℕ → Bool → Bool → Actor × SubmitStatus
submit_direct a c now valid ok =
    if not (command_valid c)
    then (a, SubmitStatus.invalid)
    else if not a.running
    then (a, SubmitStatus.not_running)
    else if a.stopping
    then (reject_stopping a, SubmitStatus.shutting_down)
    else if not a.accepting
    then (reject_stopping a, SubmitStatus.shutting_down)
    else direct_result (count_submitted a) (bump a.health.last_command_id) now valid ok

-- The end of `actor_submit` for a caller that waited: the request is done, or the time is over. The
-- caller's reference goes; the request is freed when none is left. A request that is not done may still
-- be queued, and is known there by its number; one that is done has left the queue.
unfoldable pub drop_reference : Request → Request
drop_reference r = record r { references = r.references - 1 }

unfoldable pub drop_numbered : ℕ → Request → Request
drop_numbered id q = if q.command.command_id == id then drop_reference q else q

-- The caller of the request with this number no longer refers to it.
unfoldable pub leave_queued : Actor → ℕ → Actor
leave_queued a id = record a { queue = ring_map (drop_numbered id) a.queue }

unfoldable pub give_up_wait : Actor → Request → Actor
give_up_wait a r =
    let b = leave_queued a r.command.command_id in
    record b { health = record b.health { timed_out = bump b.health.timed_out } }

unfoldable pub end_wait : Actor → Request → (Actor × SubmitStatus) × Request
end_wait a r =
    if r.completed
    then ((a, r.completion_status), drop_reference r)
    else ((give_up_wait a r, SubmitStatus.timeout), drop_reference r)
