-- ===== src/Player/MediaActor/Commands.antt =====
-- source/player/core/media_actor.h and media_actor.c: the data, the tests on commands, and the queue.
use nx_cast.Base.{
  ℕ, ◌+◌, ◌-◌, Bool, true, false, not, ◌&&◌, ◌||◌, Option, some, none, List, ◌==◌, if◌then◌else◌,
  leb, ltb, u64,
}
use nx_cast.Player.MediaActor.Ring.{Ring, ring_push, ring_pop, empty_ring}

-- `MediaActorCommandKind` is a number, since `command_valid` tests its range.
abbrev pub open_kind : ℕ
open_kind = 1

abbrev pub stop_any : ℕ
stop_any = 5

abbrev pub seek_ms : ℕ
seek_ms = 7

abbrev pub set_volume : ℕ
set_volume = 8

abbrev pub set_mute : ℕ
set_mute = 9

abbrev pub release_lease : ℕ
release_lease = 12

abbrev pub quiesce_kind : ℕ
quiesce_kind = 13

abbrev pub shutdown : ℕ
shutdown = 14

pub data SubmitStatus : Type 0 where
  accepted executed execution_failed invalid not_running : SubmitStatus
  queue_full no_memory timeout shutting_down stale : SubmitStatus

pub record Command : Type 0 where
  pub command_id : ℕ  -- uint64_t
  pub kind : ℕ
  pub producer : ℕ  -- MediaActorProducer
  pub session_token : ℕ  -- uint64_t
  pub generation : ℕ  -- uint32_t
  pub text : Option (List ℕ)
  pub metadata : Option (List ℕ)
  pub value : ℕ  -- int, its 32 bits
  pub flag : Bool
  pub opaque_value : Option ℕ  -- opaque
  pub opaque_retain : Bool  -- whether the function is given
  pub opaque_release : Bool

pub record Request : Type 0 where
  pub command : Command
  pub completion_status : SubmitStatus
  pub completed : Bool
  pub references : ℕ  -- unsigned int

-- The fields of `MediaActorConfig` that the queue reads; an optional callback is whether it is given.
pub record Config : Type 0 where
  pub capacity : ℕ
  pub reserved_capacity : ℕ
  pub max_command_burst : ℕ
  pub idle_poll_ms : ℕ  -- uint32_t
  pub start_suspended : Bool
  pub initialize : Bool
  pub execute : Bool

pub record Health : Type 0 where
  pub running : Bool
  pub stopping : Bool
  pub accepting : Bool
  pub initializing : Bool
  pub ready : Bool
  pub initialization_failed : Bool
  pub dispatch_enabled : Bool
  pub pending : ℕ
  pub max_depth : ℕ
  pub submitted : ℕ  -- uint64_t, with the counters below
  pub executed : ℕ
  pub execution_failed : ℕ
  pub rejected_full : ℕ
  pub rejected_stopping : ℕ
  pub rejected_stale : ℕ
  pub coalesced : ℕ
  pub timed_out : ℕ
  pub last_command_id : ℕ
  pub current_command_id : ℕ
  pub current_command_kind : ℕ
  pub current_command_producer : ℕ
  pub current_session_token : ℕ
  pub current_generation : ℕ
  pub last_completed_command_id : ℕ

pub record Actor : Type 0 where
  pub config : Config
  pub queue : Ring Request
  pub thread_started : Bool
  pub join_in_progress : Bool
  pub running : Bool
  pub stopping : Bool
  pub accepting : Bool
  pub dispatch_requested : Bool
  pub worker_identity_valid : Bool
  pub health : Health
  pub current_command_started_ms : ℕ
  pub last_heartbeat_ms : ℕ

-- `++` on a uint64_t counter.
abbrev pub bump : ℕ → ℕ
bump n = u64 (n + 1)

unfoldable pub command_valid : Command → Bool
command_valid c =
    leb open_kind c.kind
    && leb c.kind shutdown
    && ((not c.opaque_retain && not c.opaque_release) || (c.opaque_retain && c.opaque_release))

unfoldable pub command_uses_reserved_slot : ℕ → Bool
command_uses_reserved_slot kind =
    (kind == stop_any) || (kind == release_lease) || (kind == quiesce_kind) || (kind == shutdown)

unfoldable pub command_is_replaceable : ℕ → Bool
command_is_replaceable kind = (kind == seek_ms) || (kind == set_volume) || (kind == set_mute)

unfoldable pub command_can_replace : Command → Command → Bool
command_can_replace queued replacement =
    (queued.kind == replacement.kind)
    && (queued.producer == replacement.producer)
    && (queued.session_token == replacement.session_token)
    && (queued.generation == replacement.generation)

abbrev pub created : Command → Request
created c = record {
  command = record c { command_id = 0 };
  completion_status = SubmitStatus.accepted;
  completed = false;
  references = 0;
}

-- `none` is NULL: no memory.
unfoldable pub request_create : Bool → Command → Option Request
request_create false c = none
request_create true c = some (created c)

abbrev pub max_of : ℕ → ℕ → ℕ
max_of a b = if ltb b a then a else b

unfoldable pub queue_push_locked : Actor → Request → Actor
queue_push_locked a r =
    let queue = ring_push a.config.capacity a.queue r in
    record a {
      queue = queue;
      health = record a.health {
        pending = queue.count;
        max_depth = max_of queue.count a.health.max_depth;
      };
    }

unfoldable pub pop_first : Actor → Option Request × Actor
pop_first a =
    let popped = ring_pop a.config.capacity a.queue in
    (popped.0, record a { queue = popped.1; health = record a.health { pending = popped.1.count } })

unfoldable pub queue_pop_locked : Actor → Option Request × Actor
queue_pop_locked a = if a.queue.count == 0 then (none, a) else pop_first a

-- The completed request; it is freed when no reference is left.
unfoldable pub request_complete_locked : Request → SubmitStatus → Request
request_complete_locked r status = record r {
  completed = true;
  completion_status = status;
  references = r.references - 1;
}

abbrev pub zero_health : Health
zero_health = record {
  running = false;
  stopping = false;
  accepting = false;
  initializing = false;
  ready = false;
  initialization_failed = false;
  dispatch_enabled = false;
  pending = 0;
  max_depth = 0;
  submitted = 0;
  executed = 0;
  execution_failed = 0;
  rejected_full = 0;
  rejected_stopping = 0;
  rejected_stale = 0;
  coalesced = 0;
  timed_out = 0;
  last_command_id = 0;
  current_command_id = 0;
  current_command_kind = 0;
  current_command_producer = 0;
  current_session_token = 0;
  current_generation = 0;
  last_completed_command_id = 0;
}

unfoldable pub config_valid : Config → Bool
config_valid c =
    c.execute
    && not (c.capacity == 0)
    && ltb c.reserved_capacity c.capacity
    && not (c.max_command_burst == 0)
    && not (c.idle_poll_ms == 0)

-- What `calloc` and the assignment of the configuration leave.
abbrev pub new_actor : Config → Actor
new_actor c = record {
  config = c;
  queue = empty_ring c.capacity;
  thread_started = false;
  join_in_progress = false;
  running = false;
  stopping = false;
  accepting = false;
  dispatch_requested = false;
  worker_identity_valid = false;
  health = zero_health;
  current_command_started_ms = 0;
  last_heartbeat_ms = 0;
}

-- `media_actor_create`, where the allocations and the mutex succeed.
unfoldable pub create : Config → Option Actor
create c = if config_valid c then some (new_actor c) else none
