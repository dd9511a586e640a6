-- ===== src/Player/MediaActor/Drain.antt =====
-- source/player/core/media_actor.c: `actor_reject_pending_locked` completes every waiting request.
use nx_cast.Base.{ℕ, zero, suc, ◌≤◌, ◌≡◌, refl, ap, ◌∙◌, arith, some, List, [], ◌∷◌, length, map}
use nx_cast.Player.MediaActor.Commands.{
  SubmitStatus, Request, Actor, bump, queue_pop_locked, pop_first, request_complete_locked,
}
use nx_cast.Player.MediaActor.Worker.{reject_next, reject_pending}
use nx_cast.Player.MediaActor.Queue.{IsValid, pop-IsValid, flags-IsValid}
use nx_cast.Player.MediaActor.Fifo.{Holds, Holds-count, pop-Holds, pop-Holds_empty}

-- A counter after so many turns.
abbrev pub bumps : ℕ → ℕ → ℕ
bumps zero n = n
bumps (suc k) n = bumps k (bump n)

abbrev pub rejected : Request → Request
rejected r = request_complete_locked r SubmitStatus.shutting_down

-- What the loop leaves.
pub record Drained (a : Actor) (xs : List Request) (result : List Request × Actor) : Type 0 where
  pub completed : result.0 ≡ map rejected xs
  pub empty : result.1.queue.count ≡ 0
  pub counted : result.1.health.rejected_stopping ≡ bumps (length xs) a.health.rejected_stopping
  pub accepting : result.1.accepting ≡ a.accepting

pop-rejected_stopping :
    (a : Actor) → (queue_pop_locked a).1.health.rejected_stopping ≡ a.health.rejected_stopping
unfolding queue_pop_locked pop_first
pop-rejected_stopping a = ground arith

pop-accepting : (a : Actor) → (queue_pop_locked a).1.accepting ≡ a.accepting
unfolding queue_pop_locked pop_first
pop-accepting a = ground arith

pub popped_pair :
    (a : Actor) (x : Request)
    → (queue_pop_locked a).0 ≡ some x
    → queue_pop_locked a ≡ (some x, (queue_pop_locked a).1)
popped_pair a x e = λ k. (e k, (queue_pop_locked a).1)

-- One more turn of the counter, on the popped actor.
abbrev pub count_rejected : Actor → Actor
count_rejected a = record a {
  health = record a.health { rejected_stopping = bump a.health.rejected_stopping };
}

reject_next-Drained :
    (xs : List Request) (fuel : ℕ) (a : Actor)
    → IsValid a
    → Holds a xs
    → length xs ≤ fuel
    → Drained a xs (reject_next fuel (queue_pop_locked a))
unfolding reject_next
reject_next-Drained [] zero a v h le =
    rw (pop-Holds_empty a h)
      (record { completed = refl; empty = Holds-count a [] h; counted = refl; accepting = refl })
reject_next-Drained [] (suc fuel) a v h le =
    rw (pop-Holds_empty a h)
      (record { completed = refl; empty = Holds-count a [] h; counted = refl; accepting = refl })
reject_next-Drained (x ∷ xs) zero a v h le = absurd (omega arith)
reject_next-Drained (x ∷ xs) (suc fuel) a v h le =
    let popped = pop-Holds a x xs v h in
    let valid = pop-IsValid a v in
    let rest =
      reject_next-Drained xs fuel (count_rejected (queue_pop_locked a).1)
        (flags-IsValid valid _ refl refl refl refl valid.runs valid.accepts) popped.1
        (omega arith) in
    rw (popped_pair a x popped.0) (record {
      completed = ap (◌∷◌ (rejected x)) rest.completed;
      empty = rest.empty;
      counted = rest.counted ∙ ap (λ (n : ℕ). bumps (length xs) (bump n)) (pop-rejected_stopping a);
      accepting = rest.accepting ∙ pop-accepting a;
    })

-- When the queue holds the requests `xs`, oldest first, `actor_reject_pending_locked` completes each
-- of them in that order with SHUTTING_DOWN, counts each in `rejected_stopping`, and leaves the queue
-- empty: the fuel of the model, the queue's length, is enough.
pub reject_pending-Drained :
    (a : Actor) (xs : List Request) → IsValid a → Holds a xs → Drained a xs (reject_pending a)
unfolding reject_pending
reject_pending-Drained a xs v h =
    reject_next-Drained xs a.queue.count a v h (omega (arith, Holds-count a xs h))
