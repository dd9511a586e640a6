-- ===== src/Player/MediaActor/Admission.antt =====
-- source/player/core/media_actor.c: what `actor_submit` lets in, and how it counts.
use nx_cast.Base.{
  ℕ, inl, inr, ◌⊎◌, ◌+◌, ◌-◌, ◌≤◌, ◌<◌, ◌≡◌, refl, sym, ◌∙◌, Bool, true, false, not, ◌||◌, Option,
  some, none, arith, if◌then◌else◌, Bool-cases, subst,
}
use nx_cast.Player.MediaActor.Ring.{ring_push, ring_set_last}
use nx_cast.Player.MediaActor.Commands.{
  SubmitStatus, Command, Request, Actor, bump, command_valid, queue_push_locked,
  command_uses_reserved_slot, command_is_replaceable, request_create, created,
}
use nx_cast.Player.MediaActor.Submit.{
  submit, admit, admit_created, reject_stopping, coalesce, replace_or_enqueue, replaced_request,
  enqueue, queue_is_full, reject_full, count_submitted, push_request,
}

abbrev pub is_accepted : SubmitStatus → Bool
is_accepted SubmitStatus.accepted = true
is_accepted _ = false

abbrev pub is_full : SubmitStatus → Bool
is_full SubmitStatus.queue_full = true
is_full _ = false

abbrev pub is_stopping : SubmitStatus → Bool
is_stopping SubmitStatus.shutting_down = true
is_stopping _ = false

-- What a submission leaves: the status, the counters that it moved, and the queue's length.
pub record Outcome (a b : Actor) (kind : ℕ) (status : SubmitStatus) : Type 0 where
  pub submitted :
      b.health.submitted
      ≡ (if is_accepted status then bump a.health.submitted else a.health.submitted)
  pub numbered :
      b.health.last_command_id
      ≡ (if is_accepted status then bump a.health.last_command_id else a.health.last_command_id)
  pub full :
      b.health.rejected_full
      ≡ (if is_full status then bump a.health.rejected_full else a.health.rejected_full)
  pub stopped :
      b.health.rejected_stopping
      ≡ (if is_stopping status then bump a.health.rejected_stopping else a.health.rejected_stopping)
  pub config : b.config ≡ a.config
  pub grows : a.queue.count ≤ b.queue.count
  pub by_one : b.queue.count ≤ a.queue.count + 1
  pub kept :
      command_uses_reserved_slot kind ≡ false
      → (b.queue.count ≤ a.queue.count)
        ⊎ (b.queue.count ≤ a.config.capacity - a.config.reserved_capacity)

unchanged :
    (a : Actor) (kind : ℕ) (status : SubmitStatus)
    → is_accepted status ≡ false
    → is_full status ≡ false
    → is_stopping status ≡ false
    → Outcome a a kind status
unchanged a kind status p q r = record {
  submitted = rw p refl;
  numbered = rw p refl;
  full = rw q refl;
  stopped = rw r refl;
  config = refl;
  grows = omega arith;
  by_one = omega arith;
  kept = λ h. inl (omega arith);
}

coalesced :
    (a : Actor) (r q : Request) (kind : ℕ) → Outcome a (coalesce a r q).0 kind SubmitStatus.accepted
unfolding coalesce ring_set_last
coalesced a r q kind = record {
  submitted = refl;
  numbered = refl;
  full = refl;
  stopped = refl;
  config = refl;
  grows = omega arith;
  by_one = omega arith;
  kept = λ h. inl (omega arith);
}

pushed :
    (a : Actor) (wait : Bool) (r : Request) (kind : ℕ)
    → queue_is_full a kind ≡ false
    → Outcome a (push_request a wait r) kind SubmitStatus.accepted
unfolding push_request count_submitted queue_push_locked ring_push queue_is_full
pushed a wait r kind e = record {
  submitted = refl;
  numbered = refl;
  full = refl;
  stopped = refl;
  config = refl;
  grows = omega arith;
  by_one = omega arith;
  kept = λ h. inr (ground arith);
}

-- The outcome of a result, which a proof by cases replaces as a whole.
HasOutcome : Actor → ℕ → Actor × SubmitStatus → Type 0
HasOutcome a kind (b, status) = Outcome a b kind status

enqueue-Outcome :
    (a : Actor) (wait : Bool) (r : Request) → HasOutcome a r.command.kind (enqueue a wait r)
unfolding enqueue reject_full HasOutcome
enqueue-Outcome a wait r = elim (Bool-cases (queue_is_full a r.command.kind)) [
  | inl e ↦
      subst (HasOutcome a r.command.kind) {x = (reject_full a, SubmitStatus.queue_full)}
        (ground arith)
        record {
          submitted = refl;
          numbered = refl;
          full = refl;
          stopped = refl;
          config = refl;
          grows = omega arith;
          by_one = omega arith;
          kept = λ h. inl (omega arith);
        }
  | inr e ↦
      subst (HasOutcome a r.command.kind) {x = (push_request a wait r, SubmitStatus.accepted)}
        (ground arith) (pushed a wait r r.command.kind e)
]

replace_or_enqueue-Outcome :
    (a : Actor) (wait : Bool) (r : Request) (q : Option Request)
    → HasOutcome a r.command.kind (replace_or_enqueue a wait r q)
unfolding replace_or_enqueue HasOutcome
replace_or_enqueue-Outcome a wait r none = enqueue-Outcome a wait r
replace_or_enqueue-Outcome a wait r (some q) = coalesced a r q r.command.kind

admit-Outcome :
    (a : Actor) (wait : Bool) (r : Request) → HasOutcome a r.command.kind (admit a wait r)
unfolding admit reject_stopping HasOutcome
admit-Outcome a wait r = elim (Bool-cases a.running) [
  | inr e ↦
      subst (HasOutcome a r.command.kind) {x = (a, SubmitStatus.not_running)} (ground arith)
        (unchanged a r.command.kind SubmitStatus.not_running refl refl refl)
  | inl e ↦ elim (Bool-cases (a.stopping || not a.accepting)) [
    | inl f ↦
        subst (HasOutcome a r.command.kind) {x = (reject_stopping a, SubmitStatus.shutting_down)}
          (ground arith)
          record {
            submitted = refl;
            numbered = refl;
            full = refl;
            stopped = refl;
            config = refl;
            grows = omega arith;
            by_one = omega arith;
            kept = λ h. inl (omega arith);
          }
    | inr f ↦
        subst (HasOutcome a r.command.kind)
          {x = replace_or_enqueue a wait r (replaced_request a wait r.command)} (ground arith)
          (replace_or_enqueue-Outcome a wait r _)
  ]
]

admit_created-Outcome :
    (a : Actor) (wait memory : Bool) (c : Command)
    → HasOutcome a c.kind (admit_created a wait (request_create memory c))
unfolding admit_created request_create HasOutcome
admit_created-Outcome a wait false c = unchanged a c.kind SubmitStatus.no_memory refl refl refl
admit_created-Outcome a wait true c = admit-Outcome a wait _

submit-HasOutcome :
    (a : Actor) (wait memory : Bool) (c : Command) → HasOutcome a c.kind (submit a wait memory c)
unfolding submit HasOutcome
submit-HasOutcome a wait memory c = elim (Bool-cases (command_valid c)) [
  | inr e ↦
      subst (HasOutcome a c.kind) {x = (a, SubmitStatus.invalid)} (ground arith)
        (unchanged a c.kind SubmitStatus.invalid refl refl refl)
  | inl e ↦
      subst (HasOutcome a c.kind) {x = admit_created a wait (request_create memory c)}
        (ground arith) (admit_created-Outcome a wait memory c)
]

-- Of the counters `submitted`, `rejected_full` and `rejected_stopping`, a submission moves just the one
-- that its status names, and `last_command_id` moves just when it is accepted; the queue never shrinks
-- and grows by one at most; and a command of a kind without a reserved slot never lengthens it past
-- the capacity less the reserved slots.
pub submit-Outcome :
    (a : Actor) (wait memory : Bool) (c : Command)
    → Outcome a (submit a wait memory c).0 c.kind (submit a wait memory c).1
unfolding HasOutcome
submit-Outcome a wait memory c = submit-HasOutcome a wait memory c

reserved_not_replaceable :
    (kind : ℕ) → command_uses_reserved_slot kind ≡ true → command_is_replaceable kind ≡ false
unfolding command_uses_reserved_slot command_is_replaceable
reserved_not_replaceable kind k = ground arith

reserved_not_replaced :
    (a : Actor) (wait : Bool) (c : Command)
    → command_uses_reserved_slot c.kind ≡ true
    → replaced_request a wait c ≡ none
unfolding replaced_request
reserved_not_replaced a wait c k = ground (arith, reserved_not_replaceable c.kind k)

reserved_not_full :
    (a : Actor) (kind : ℕ)
    → command_uses_reserved_slot kind ≡ true
    → a.queue.count < a.config.capacity
    → queue_is_full a kind ≡ false
unfolding queue_is_full
reserved_not_full a kind k room = ground arith

push_request-count :
    (a : Actor) (wait : Bool) (r : Request)
    → (push_request a wait r).queue.count ≡ a.queue.count + 1
unfolding push_request count_submitted queue_push_locked ring_push
push_request-count a wait r = refl

enqueue-reserved :
    (a : Actor) (wait : Bool) (r : Request)
    → command_uses_reserved_slot r.command.kind ≡ true
    → a.queue.count < a.config.capacity
    → enqueue a wait r ≡ (push_request a wait r, SubmitStatus.accepted)
unfolding enqueue
enqueue-reserved a wait r k room = ground (arith, reserved_not_full a r.command.kind k room)

admit-reserved :
    (a : Actor) (wait : Bool) (r : Request)
    → a.running ≡ true
    → a.stopping ≡ false
    → a.accepting ≡ true
    → command_uses_reserved_slot r.command.kind ≡ true
    → a.queue.count < a.config.capacity
    → admit a wait r ≡ (push_request a wait r, SubmitStatus.accepted)
unfolding admit replace_or_enqueue
admit-reserved a wait r runs stops accepts k room =
    ground (arith, reserved_not_replaced a wait r.command k, enqueue-reserved a wait r k room)

submit-valid :
    (a : Actor) (wait : Bool) (c : Command)
    → command_valid c ≡ true
    → submit a wait true c ≡ admit a wait (created c)
unfolding submit admit_created request_create
submit-valid a wait c v = ground arith

-- A running actor that is not stopping and accepts commands takes every valid command of a kind with a
-- reserved slot, when memory is found for the request and the array has room.
pub reserved_admitted :
    (a : Actor) (wait : Bool) (c : Command)
    → a.running ≡ true
    → a.stopping ≡ false
    → a.accepting ≡ true
    → command_valid c ≡ true
    → command_uses_reserved_slot c.kind ≡ true
    → a.queue.count < a.config.capacity
    → ((submit a wait true c).1 ≡ SubmitStatus.accepted)
      × ((submit a wait true c).0.queue.count ≡ a.queue.count + 1)
reserved_admitted a wait c runs stops accepts v k room =
    subst
      (λ result. (result.1 ≡ SubmitStatus.accepted) × (result.0.queue.count ≡ a.queue.count + 1))
      (sym (submit-valid a wait c v ∙ admit-reserved a wait (created c) runs stops accepts k room))
      (refl, push_request-count a wait (created c))
