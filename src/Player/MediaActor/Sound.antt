-- ===== src/Player/MediaActor/Sound.antt =====
-- source/player/core/media_actor.c: along any run the ring holds a list of requests, and the worker
-- takes the oldest.
use nx_cast.Base.{
  ℕ, ◌≡◌, inl, inr, not, ◌||◌, refl, sym, ap, subst, arith, Bool, true, false, Option, some, none,
  List, [], ◌∷◌, map, Bool-cases,
}
use nx_cast.Player.MediaActor.Window.{window}
use nx_cast.Player.MediaActor.Commands.{
  Config, Command, Request, Actor, new_actor, create, queue_pop_locked,
}
use nx_cast.Player.MediaActor.Submit.{
  submit_direct, direct_result, reject_stopping, count_submitted, drop_numbered, leave_queued,
  give_up_wait, end_wait,
}
use nx_cast.Player.MediaActor.Worker.{
  take_command, mark_current, finish_request, initialize_worker, initialized_health, reject_pending,
  start, mark_started, activate, enable_dispatch, begin_stop, request_stop, worker_finished,
  set_worker_identity, mark_start_failed, thread_created, quiesce, joined,
}
use nx_cast.Player.MediaActor.Queue.{IsValid, flags-IsValid}
use nx_cast.Player.MediaActor.Fifo.{Holds, pop-Holds, pop-Holds_empty, map-Holds}
use nx_cast.Player.MediaActor.Drain.{reject_pending-Drained}
use nx_cast.Player.MediaActor.Refine.{submit-Queued}
use nx_cast.Player.MediaActor.Steps.{
  Step, submit_step, direct_step, end_wait_step, take_step, finish_step, initialize_step,
  reject_step, finish_worker_step, identity_step, start_step, start_failed_step,
  thread_created_step, activate_step, quiesce_step, request_stop_step, begin_stop_step, joined_step,
  step, run, started, step-IsValid, new_actor-IsValid, create-some,
}

abbrev pub Backed : Actor → Type 0
Backed a = (xs : List Request) × Holds a xs

SameQueue : Actor → Actor → Type 0
SameQueue a b = (b.queue ≡ a.queue) × (b.config ≡ a.config)

same-Backed : (a b : Actor) → SameQueue a b → Backed a → Backed b
unfolding SameQueue
same-Backed a b (q, c) (xs, h) = (xs, rw q (rw c h))

empty-Backed : (a : Actor) → a.queue.count ≡ 0 → Backed a
empty-Backed a e = ([], ap (window a.queue.slots a.config.capacity a.queue.head) e)

queue-submit_direct :
    (a : Actor) (c : Command) (now : ℕ) (valid ok : Bool)
    → SameQueue a (submit_direct a c now valid ok).0
unfolding SameQueue submit_direct direct_result reject_stopping count_submitted
queue-submit_direct a c now valid ok = ground arith

queue-start : (a : Actor) (now : ℕ) → SameQueue a (started a (start a now))
unfolding SameQueue start mark_started
queue-start a now = ground arith

queue-activate : (a : Actor) → SameQueue a (activate a).1
unfolding SameQueue activate enable_dispatch
queue-activate a = ground arith

queue-begin_stop : (a : Actor) → SameQueue a (begin_stop a).1
unfolding SameQueue begin_stop request_stop
queue-begin_stop a = ground arith

queue-mark_current : (r : Option Request) (a : Actor) (now : ℕ) → SameQueue a (mark_current r a now)
unfolding SameQueue mark_current
queue-mark_current none a now = (refl, refl)
queue-mark_current (some r) a now = (refl, refl)

pop-Backed : (a : Actor) → IsValid a → Backed a → Backed (queue_pop_locked a).1
pop-Backed a v ([], h) = rw (pop-Holds_empty a h) ([], h)
pop-Backed a v (x ∷ xs, h) = (xs, (pop-Holds a x xs v h).1)

take_command-Backed : (a : Actor) (now : ℕ) → IsValid a → Backed a → Backed (take_command a now).1
unfolding take_command
take_command-Backed a now v k = elim (Bool-cases (a.stopping || not a.health.dispatch_enabled)) [
  | inl e ↦ subst Backed {x = a} {y = (take_command a now).1} (ground arith) k
  | inr e ↦
      subst Backed {x = mark_current (queue_pop_locked a).0 (queue_pop_locked a).1 now}
        {y = (take_command a now).1} (ground arith)
        (same-Backed (queue_pop_locked a).1 _
          (queue-mark_current (queue_pop_locked a).0 (queue_pop_locked a).1 now) (pop-Backed a v k))
]

reject_pending-Backed : (a : Actor) → IsValid a → Backed a → Backed (reject_pending a).1
reject_pending-Backed a v (xs, h) =
    empty-Backed (reject_pending a).1 (reject_pending-Drained a xs v h).empty

initialize_worker-Backed :
    (a : Actor) (now : ℕ) (i : Bool) → IsValid a → Backed a → Backed (initialize_worker a now i).1
unfolding initialize_worker initialized_health
initialize_worker-Backed a now true v k = k
initialize_worker-Backed a now false v k =
    reject_pending-Backed _ (flags-IsValid v _ refl refl refl refl refl refl) k

end_wait-Backed : (a : Actor) (r : Request) → Backed a → Backed (end_wait a r).0.0
unfolding end_wait give_up_wait leave_queued
end_wait-Backed a r (xs, h) = elim (Bool-cases r.completed) [
  | inl e ↦ rw e (xs, h)
  | inr e ↦ rw e (
    map (drop_numbered r.command.command_id) xs,
    map-Holds a (drop_numbered r.command.command_id) xs h,
  )
]

step-Backed : (a : Actor) (s : Step) → IsValid a → Backed a → Backed (step a s)
unfolding step finish_request worker_finished set_worker_identity mark_start_failed thread_created
    quiesce request_stop joined
step-Backed a (submit_step wait memory c) v (xs, h) =
    let r = submit-Queued a wait memory c xs v h in (r.0, r.1)
step-Backed a (direct_step c now valid ok) v k =
    same-Backed a _ (queue-submit_direct a c now valid ok) k
step-Backed a (end_wait_step r) v k = end_wait-Backed a r k
step-Backed a (take_step now) v k = take_command-Backed a now v k
step-Backed a (finish_step r now valid ok) v k = k
step-Backed a (initialize_step now i) v k = initialize_worker-Backed a now i v k
step-Backed a reject_step v k = reject_pending-Backed a v k
step-Backed a (finish_worker_step now) v k = k
step-Backed a (identity_step valid) v k = k
step-Backed a (start_step now) v k = same-Backed a _ (queue-start a now) k
step-Backed a start_failed_step v k = k
step-Backed a thread_created_step v k = k
step-Backed a activate_step v k = same-Backed a _ (queue-activate a) k
step-Backed a quiesce_step v k = k
step-Backed a request_stop_step v k = k
step-Backed a begin_stop_step v k = same-Backed a _ (queue-begin_stop a) k
step-Backed a joined_step v k = k

run-Backed : (a : Actor) (steps : List Step) → IsValid a → Backed a → Backed (run a steps)
unfolding run
run-Backed a [] v k = k
run-Backed a (s ∷ steps) v k =
    run-Backed (step a s) steps (step-IsValid a s v) (step-Backed a s v k)

-- For an actor that `media_actor_create` made, after any sequence of locked regions in any order,
-- there is a list of requests that the ring holds: no slot between its ends is NULL, so a pop or a
-- read of the last entry never meets one.
pub run-create-Backed :
    (c : Config) (a : Actor) (steps : List Step) → create c ≡ some a → Backed (run a steps)
run-create-Backed c a steps h =
    let made = create-some c a h in
    run-Backed a steps (subst IsValid {x = new_actor c} made.1 (new_actor-IsValid c made.0))
      (subst Backed {x = new_actor c} made.1 ([], refl))

taken :
    (a : Actor) (x : Request) (now : ℕ)
    → (queue_pop_locked a).0 ≡ some x
    → a.stopping ≡ false
    → a.health.dispatch_enabled ≡ true
    → take_command a now ≡ (some x, mark_current (some x) (queue_pop_locked a).1 now)
unfolding take_command
taken a x now e s d = ground arith

-- When a worker that may dispatch and is not stopping takes a command from an actor whose queue holds
-- `x` before `xs`, it takes `x`, the queue then holds `xs`, and `x` is reported as the current command.
pub take_oldest :
    (a : Actor) (x : Request) (xs : List Request) (now : ℕ)
    → IsValid a
    → Holds a (x ∷ xs)
    → a.stopping ≡ false
    → a.health.dispatch_enabled ≡ true
    → ((take_command a now).0 ≡ some x)
      × Holds (take_command a now).1 xs
      × ((take_command a now).1.health.current_command_id ≡ x.command.command_id)
      × ((take_command a now).1.health.current_session_token ≡ x.command.session_token)
unfolding mark_current
take_oldest a x xs now v h s d =
    subst
      (λ (t : Option Request × Actor).
        (t.0 ≡ some x)
        × Holds t.1 xs
        × (t.1.health.current_command_id ≡ x.command.command_id)
        × (t.1.health.current_session_token ≡ x.command.session_token))
      (sym (taken a x now (pop-Holds a x xs v h).0 s d))
      (refl, (pop-Holds a x xs v h).1, refl, refl)
