-- ===== src/Player/MediaActor/Steps.antt =====
-- source/player/core/media_actor.c: every locked region as a step, and the invariant along a run.
use nx_cast.Base.{
  length-replicate, ℕ, inl, inr, zero, suc, ◌<◌, ◌≡◌, refl, Bool, true, false, not, ◌&&◌, ◌||◌,
  Option, some, none, List, [], ◌∷◌, arith, ◌==◌, Bool-cases, subst, ◌∙◌,
}
use nx_cast.Player.MediaActor.Ring.{ring_map}
use nx_cast.Player.MediaActor.Fifo.{length-map}
use nx_cast.Player.MediaActor.Commands.{
  Config, config_valid, create, new_actor, Command, Request, Actor, bump, command_valid,
  queue_pop_locked, request_create,
}
use nx_cast.Player.MediaActor.Submit.{
  submit, submit_direct, direct_result, admit, admit_created, reject_stopping, replace_or_enqueue,
  replaced_request, enqueue, queue_is_full, reject_full, count_submitted, push_request,
  leave_queued, give_up_wait, end_wait,
}
use nx_cast.Player.MediaActor.Worker.{
  reject_next, reject_pending, take_command, mark_current, finish_request, initialize_worker,
  initialized_health, worker_finished, mark_started, enable_dispatch, set_worker_identity, start,
  mark_start_failed, thread_created, activate, quiesce, request_stop, begin_stop, joined,
}
use nx_cast.Player.MediaActor.Queue.{
  IsValid, push-IsValid, pop-IsValid, flags-IsValid, set_last-IsValid,
}

-- The locked regions, by their callers.
pub data Step : Type 0 where
  submit_step : (wait memory : Bool) → Command → Step
  direct_step : Command → (now : ℕ) → (valid ok : Bool) → Step
  end_wait_step : Request → Step
  take_step : (now : ℕ) → Step
  finish_step : Request → (now : ℕ) → (valid ok : Bool) → Step
  initialize_step : (now : ℕ) → (initialized : Bool) → Step
  reject_step : Step
  finish_worker_step : (now : ℕ) → Step
  identity_step : Bool → Step
  start_step : (now : ℕ) → Step
  start_failed_step : Step
  thread_created_step : Step
  activate_step : Step
  quiesce_step : Step
  request_stop_step : Step
  begin_stop_step : Step
  joined_step : Step

abbrev pub started : Actor → Option Actor → Actor
started a none = a
started a (some b) = b

unfoldable pub step : Actor → Step → Actor
step a (submit_step wait memory c) = (submit a wait memory c).0
step a (direct_step c now valid ok) = (submit_direct a c now valid ok).0
step a (end_wait_step r) = (end_wait a r).0.0
step a (take_step now) = (take_command a now).1
step a (finish_step r now valid ok) = (finish_request a r now valid ok).0
step a (initialize_step now initialized) = (initialize_worker a now initialized).1
step a reject_step = (reject_pending a).1
step a (finish_worker_step now) = worker_finished a now
step a (identity_step valid) = set_worker_identity a valid
step a (start_step now) = started a (start a now)
step a start_failed_step = mark_start_failed a
step a thread_created_step = thread_created a
step a activate_step = (activate a).1
step a quiesce_step = quiesce a
step a request_stop_step = request_stop a
step a begin_stop_step = (begin_stop a).1
step a joined_step = joined a

unfoldable pub run : Actor → List Step → Actor
run a [] = a
run a (s ∷ steps) = run (step a s) steps

not_full_fits :
    (a : Actor) (kind : ℕ) → queue_is_full a kind ≡ false → a.queue.count < a.config.capacity
unfolding queue_is_full
not_full_fits a kind e = ground arith

enqueue-IsValid : (a : Actor) (wait : Bool) (r : Request) → IsValid a → IsValid (enqueue a wait r).0
unfolding enqueue reject_full push_request count_submitted
enqueue-IsValid a wait r v = elim (Bool-cases (queue_is_full a r.command.kind)) [
  | inl e ↦
      subst IsValid {x = reject_full a} (ground arith)
        (flags-IsValid v _ refl refl refl refl v.runs v.accepts)
  | inr e ↦ subst IsValid {x = push_request a wait r} (ground arith) (
      push-IsValid (count_submitted a) _ (flags-IsValid v _ refl refl refl refl v.runs v.accepts)
        (ground (arith, not_full_fits a r.command.kind e)))
]

replace_or_enqueue-IsValid :
    (a : Actor) (wait : Bool) (r : Request) (q : Option Request)
    → IsValid a
    → IsValid (replace_or_enqueue a wait r q).0
unfolding replace_or_enqueue
replace_or_enqueue-IsValid a wait r none v = enqueue-IsValid a wait r v
replace_or_enqueue-IsValid a wait r (some q) v = set_last-IsValid a q r v

reject_stopping-IsValid : (a : Actor) → IsValid a → IsValid (reject_stopping a)
unfolding reject_stopping
reject_stopping-IsValid a v = flags-IsValid v _ refl refl refl refl v.runs v.accepts

admit-IsValid : (a : Actor) (wait : Bool) (r : Request) → IsValid a → IsValid (admit a wait r).0
unfolding admit
admit-IsValid a wait r v = elim (Bool-cases a.running) [
  | inr e ↦ subst IsValid {x = a} (ground arith) v
  | inl e ↦ elim (Bool-cases (a.stopping || not a.accepting)) [
    | inl f ↦ subst IsValid {x = reject_stopping a} (ground arith) (reject_stopping-IsValid a v)
    | inr f ↦
        subst IsValid {x = (replace_or_enqueue a wait r (replaced_request a wait r.command)).0}
          (ground arith) (replace_or_enqueue-IsValid a wait r _ v)
  ]
]

admit_created-IsValid :
    (a : Actor) (wait : Bool) (r : Option Request) → IsValid a → IsValid (admit_created a wait r).0
unfolding admit_created
admit_created-IsValid a wait none v = v
admit_created-IsValid a wait (some r) v = admit-IsValid a wait r v

submit-IsValid :
    (a : Actor) (wait memory : Bool) (c : Command) → IsValid a → IsValid (submit a wait memory c).0
unfolding submit
submit-IsValid a wait memory c v = elim (Bool-cases (command_valid c)) [
  | inr e ↦ subst IsValid {x = a} (ground arith) v
  | inl e ↦
      subst IsValid {x = (admit_created a wait (request_create memory c)).0} (ground arith)
        (admit_created-IsValid a wait _ v)
]

direct_result-IsValid :
    (a : Actor) (id now : ℕ) (valid ok : Bool)
    → IsValid a
    → IsValid (direct_result a id now valid ok).0
unfolding direct_result
direct_result-IsValid a id now false ok v = flags-IsValid v _ refl refl refl refl v.runs v.accepts
direct_result-IsValid a id now true ok v = flags-IsValid v _ refl refl refl refl v.runs v.accepts

mark_current-IsValid :
    (r : Option Request) (a : Actor) (now : ℕ) → IsValid a → IsValid (mark_current r a now)
unfolding mark_current
mark_current-IsValid none a now v = v
mark_current-IsValid (some r) a now v = flags-IsValid v _ refl refl refl refl v.runs v.accepts

reject_next-IsValid :
    (fuel : ℕ) (p : Option Request × Actor) → IsValid p.1 → IsValid (reject_next fuel p).1
unfolding reject_next
reject_next-IsValid zero (none, a) v = v
reject_next-IsValid (suc fuel) (none, a) v = v
reject_next-IsValid zero (some r, a) v = v
reject_next-IsValid (suc fuel) (some r, a) v =
    reject_next-IsValid fuel _
      (pop-IsValid _ (flags-IsValid v _ refl refl refl refl v.runs v.accepts))

reject_pending-IsValid : (a : Actor) → IsValid a → IsValid (reject_pending a).1
unfolding reject_pending
reject_pending-IsValid a v = reject_next-IsValid a.queue.count _ (pop-IsValid a v)

initialize_worker-IsValid :
    (a : Actor) (now : ℕ) (i : Bool) → IsValid a → IsValid (initialize_worker a now i).1
unfolding initialize_worker initialized_health
initialize_worker-IsValid a now true v = flags-IsValid v _ refl refl refl refl v.runs v.accepts
initialize_worker-IsValid a now false v =
    reject_pending-IsValid _ (flags-IsValid v _ refl refl refl refl refl refl)

submit_direct-IsValid :
    (a : Actor) (c : Command) (now : ℕ) (valid ok : Bool)
    → IsValid a
    → IsValid (submit_direct a c now valid ok).0
unfolding submit_direct count_submitted
submit_direct-IsValid a c now valid ok v =
    elim (Bool-cases (command_valid c && a.running && not a.stopping && a.accepting)) [
      | inl e ↦
          subst IsValid
            {x = (direct_result (count_submitted a) (bump a.health.last_command_id) now valid ok).0}
            (ground arith)
            (direct_result-IsValid _ _ now valid ok
              (flags-IsValid v _ refl refl refl refl v.runs v.accepts))
      | inr e ↦ elim (Bool-cases (command_valid c && a.running)) [
        | inl f ↦ subst IsValid {x = reject_stopping a} (ground arith) (reject_stopping-IsValid a v)
        | inr f ↦ subst IsValid {x = a} (ground arith) v
      ]
    ]

give_up_wait-IsValid : (a : Actor) (r : Request) → IsValid a → IsValid (give_up_wait a r)
unfolding give_up_wait leave_queued ring_map
give_up_wait-IsValid a r v = record {
  reserved = v.reserved;
  size = length-map _ a.queue.slots ∙ v.size;
  head_fits = v.head_fits;
  count_fits = v.count_fits;
  pending = v.pending;
  depth = v.depth;
  depth_fits = v.depth_fits;
  runs = v.runs;
  accepts = v.accepts;
}

end_wait-IsValid : (a : Actor) (r : Request) → IsValid a → IsValid (end_wait a r).0.0
unfolding end_wait
end_wait-IsValid a r v = elim (Bool-cases r.completed) [
  | inl e ↦ subst IsValid {x = a} (ground arith) v
  | inr e ↦ subst IsValid {x = give_up_wait a r} (ground arith) (give_up_wait-IsValid a r v)
]

take_command-IsValid : (a : Actor) (now : ℕ) → IsValid a → IsValid (take_command a now).1
unfolding take_command
take_command-IsValid a now v = elim (Bool-cases (a.stopping || not a.health.dispatch_enabled)) [
  | inl e ↦ subst IsValid {x = a} (ground arith) v
  | inr e ↦
      subst IsValid {x = mark_current (queue_pop_locked a).0 (queue_pop_locked a).1 now}
        (ground arith) (mark_current-IsValid _ _ now (pop-IsValid a v))
]

start-IsValid : (a : Actor) (now : ℕ) → IsValid a → IsValid (started a (start a now))
unfolding start mark_started
start-IsValid a now v =
    elim (Bool-cases (a.running || a.thread_started || not (a.queue.count == 0))) [
      | inl e ↦ subst IsValid {x = a} (ground arith) v
      | inr e ↦
          subst IsValid {x = mark_started a now} (ground arith)
            (flags-IsValid v _ refl refl refl refl refl refl)
    ]

activate-IsValid : (a : Actor) → IsValid a → IsValid (activate a).1
unfolding activate enable_dispatch
activate-IsValid a v =
    elim (Bool-cases (a.running && not a.stopping && not a.health.initialization_failed)) [
      | inr e ↦ subst IsValid {x = a} (ground arith) v
      | inl e ↦
          subst IsValid {x = enable_dispatch a} (ground arith)
            (flags-IsValid v _ refl refl refl refl v.runs v.accepts)
    ]

begin_stop-IsValid : (a : Actor) → IsValid a → IsValid (begin_stop a).1
unfolding begin_stop request_stop
begin_stop-IsValid a v = elim (Bool-cases a.thread_started) [
  | inr e ↦ subst IsValid {x = a} (ground arith) v
  | inl e ↦
      subst IsValid {x = record (request_stop a) { join_in_progress = true }} (ground arith)
        (flags-IsValid v _ refl refl refl refl v.runs refl)
]

-- Every locked region keeps the queue within its array, and the reported state equal to the real one.
pub step-IsValid : (a : Actor) (s : Step) → IsValid a → IsValid (step a s)
unfolding step finish_request worker_finished set_worker_identity mark_start_failed thread_created
    quiesce request_stop joined
step-IsValid a (submit_step wait memory c) v = submit-IsValid a wait memory c v
step-IsValid a (direct_step c now valid ok) v = submit_direct-IsValid a c now valid ok v
step-IsValid a (end_wait_step r) v = end_wait-IsValid a r v
step-IsValid a (take_step now) v = take_command-IsValid a now v
step-IsValid a (finish_step r now valid ok) v =
    flags-IsValid v _ refl refl refl refl v.runs v.accepts
step-IsValid a (initialize_step now i) v = initialize_worker-IsValid a now i v
step-IsValid a reject_step v = reject_pending-IsValid a v
step-IsValid a (finish_worker_step now) v = flags-IsValid v _ refl refl refl refl refl refl
step-IsValid a (identity_step valid) v = flags-IsValid v _ refl refl refl refl v.runs v.accepts
step-IsValid a (start_step now) v = start-IsValid a now v
step-IsValid a start_failed_step v = flags-IsValid v _ refl refl refl refl refl refl
step-IsValid a thread_created_step v = flags-IsValid v _ refl refl refl refl v.runs v.accepts
step-IsValid a activate_step v = activate-IsValid a v
step-IsValid a quiesce_step v = flags-IsValid v _ refl refl refl refl v.runs refl
step-IsValid a request_stop_step v = flags-IsValid v _ refl refl refl refl v.runs refl
step-IsValid a begin_stop_step v = begin_stop-IsValid a v
step-IsValid a joined_step v = flags-IsValid v _ refl refl refl refl refl v.accepts

-- Any sequence of locked regions keeps the invariant.
run-IsValid : (a : Actor) (steps : List Step) → IsValid a → IsValid (run a steps)
unfolding run
run-IsValid a [] v = v
run-IsValid a (s ∷ steps) v = run-IsValid (step a s) steps (step-IsValid a s v)

config_valid-capacity : (c : Config) → config_valid c ≡ true → c.reserved_capacity < c.capacity
unfolding config_valid
config_valid-capacity c h = ground arith

pub new_actor-IsValid : (c : Config) → config_valid c ≡ true → IsValid (new_actor c)
new_actor-IsValid c h = record {
  reserved = config_valid-capacity c h;
  size = length-replicate c.capacity none;
  head_fits = omega (arith, config_valid-capacity c h);
  count_fits = omega arith;
  pending = refl;
  depth = omega arith;
  depth_fits = omega arith;
  runs = refl;
  accepts = refl;
}

pub create-some :
    (c : Config) (a : Actor) → create c ≡ some a → (config_valid c ≡ true) × (new_actor c ≡ a)
unfolding create
create-some c a h = ground arith

-- For an actor that `media_actor_create` made, after any sequence of locked regions in any order, the
-- queue's indices are within its array, the reported depth is the queue's length, which never passes
-- the capacity, and the reported `running` and `accepting` are the actor's own.
pub run-create-IsValid :
    (c : Config) (a : Actor) (steps : List Step) → create c ≡ some a → IsValid (run a steps)
run-create-IsValid c a steps h =
    run-IsValid a steps
      (subst IsValid (create-some c a h).1 (new_actor-IsValid c (create-some c a h).0))
