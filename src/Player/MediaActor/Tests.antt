-- ===== src/Player/MediaActor/Tests.antt =====
-- A small actor, and the theorems about it at concrete inputs.
use nx_cast.Base.{ℕ, List, [], ◌∷◌, ◌≡◌, refl, true, false, some, none, arith}
use nx_cast.Player.MediaActor.Ring.{empty_ring}
use nx_cast.Player.MediaActor.Commands.{
  SubmitStatus, Command, Request, created, Config, Actor, zero_health, create, config_valid,
  new_actor, seek_ms, stop_any, command_valid, command_uses_reserved_slot,
}
use nx_cast.Player.MediaActor.Submit.{submit}
use nx_cast.Player.MediaActor.Queue.{IsValid}
use nx_cast.Player.MediaActor.Steps.{
  Step, submit_step, take_step, begin_stop_step, run, run-create-IsValid, start_step,
  thread_created_step,
}
use nx_cast.Player.MediaActor.Worker.{reject_pending, take_command}
use nx_cast.Player.MediaActor.Fifo.{Holds}
use nx_cast.Player.MediaActor.Drain.{Drained, reject_pending-Drained}
use nx_cast.Player.MediaActor.Refine.{Queued, submit-Queued}
use nx_cast.Player.MediaActor.Sound.{Backed, take_oldest, run-create-Backed}
use nx_cast.Player.MediaActor.Admission.{Outcome, submit-Outcome, reserved_admitted}

abbrev small : Config
small = record {
  capacity = 3;
  reserved_capacity = 1;
  max_command_burst = 4;
  idle_poll_ms = 20;
  start_suspended = false;
  initialize = false;
  execute = true;
}

abbrev running_actor : Actor
running_actor = record {
  config = small;
  queue = empty_ring 3;
  thread_started = true;
  join_in_progress = false;
  running = true;
  stopping = false;
  accepting = true;
  dispatch_requested = true;
  worker_identity_valid = true;
  health = record zero_health {
    running = true;
    accepting = true;
    ready = true;
    dispatch_enabled = true;
  };
  current_command_started_ms = 0;
  last_heartbeat_ms = 5;
}

abbrev command : ℕ → Command
command kind = record {
  command_id = 0;
  kind = kind;
  producer = 2;
  session_token = 9;
  generation = 1;
  text = none;
  metadata = none;
  value = 40;
  flag = false;
  opaque_value = none;
  opaque_retain = false;
  opaque_release = false;
}

abbrev history : List Step
history =
    start_step 3
    ∷ thread_created_step
    ∷ submit_step false true (command seek_ms)
    ∷ take_step 8
    ∷ begin_stop_step
    ∷ []

run-create-IsValid_example : IsValid (run (new_actor small) history)
unfolding create config_valid
run-create-IsValid_example = run-create-IsValid small (new_actor small) history refl

submit-Outcome_example :
    Outcome running_actor
      (submit running_actor false true (command seek_ms)).0
      seek_ms
      (submit running_actor false true (command seek_ms)).1
submit-Outcome_example = submit-Outcome running_actor false true (command seek_ms)

reserved_admitted_example :
    ((submit running_actor true true (command stop_any)).1 ≡ SubmitStatus.accepted)
    × ((submit running_actor true true (command stop_any)).0.queue.count ≡ 1)
unfolding command_valid command_uses_reserved_slot
reserved_admitted_example =
    reserved_admitted running_actor true (command stop_any) refl refl refl refl refl (omega arith)

abbrev waiting : Command → ℕ → Request
waiting c id = record (created c) { command = record c { command_id = id }; references = 1 }

-- Two requests, round the end of the array.
abbrev busy_actor : Actor
busy_actor = record running_actor {
  queue = record {
    slots = some (waiting (command seek_ms) 8) ∷ none ∷ some (waiting (command stop_any) 7) ∷ [];
    head = 2;
    count = 2;
  };
  health = record (running_actor.health) { pending = 2; max_depth = 2; last_command_id = 8 };
}

abbrev entries : List Request
entries = waiting (command stop_any) 7 ∷ waiting (command seek_ms) 8 ∷ []

busy_actor-IsValid : IsValid busy_actor
busy_actor-IsValid = record {
  reserved = omega arith;
  size = refl;
  head_fits = omega arith;
  count_fits = omega arith;
  pending = refl;
  depth = omega arith;
  depth_fits = omega arith;
  runs = refl;
  accepts = refl;
}

submit-Queued_example :
    (ys : List Request) × Holds (submit busy_actor false true (command seek_ms)).0 ys
    × Queued busy_actor false
        (command seek_ms)
        entries
        ys
        (submit busy_actor false true (command seek_ms)).1
submit-Queued_example =
    submit-Queued busy_actor false true (command seek_ms) entries busy_actor-IsValid refl

reject_pending-Drained_example : Drained busy_actor entries (reject_pending busy_actor)
reject_pending-Drained_example = reject_pending-Drained busy_actor entries busy_actor-IsValid refl

take_oldest_example : (take_command busy_actor 60).0 ≡ some (waiting (command stop_any) 7)
take_oldest_example =
    (take_oldest busy_actor (waiting (command stop_any) 7) (waiting (command seek_ms) 8 ∷ []) 60
      busy_actor-IsValid refl refl refl).0

run-create-Backed_example : Backed (run (new_actor small) history)
unfolding create config_valid
run-create-Backed_example = run-create-Backed small (new_actor small) history refl
