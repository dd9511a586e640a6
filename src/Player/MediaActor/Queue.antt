-- ===== src/Player/MediaActor/Queue.antt =====
-- source/player/core/media_actor.c: the invariant of the queue and the regions that change the queue.
use native.Mathlib.Nat.{mod-lt}
use nx_cast.Base.{
  ◌+◌, ◌≤◌, ◌<◌, ◌≡◌, inl, inr, refl, ◌∙◌, arith, ◌==◌, length, length-set, Bool-cases, subst,
}
use nx_cast.Player.MediaActor.Ring.{ring_push, ring_pop, ring_set_last}
use nx_cast.Player.MediaActor.Commands.{
  Request, Actor, queue_push_locked, queue_pop_locked, pop_first,
}
use nx_cast.Player.MediaActor.Submit.{coalesce}

-- The queue is within its bounds, and what `media_actor_get_health` reports agrees with it.
pub record IsValid (a : Actor) : Type 0 where
  pub reserved : a.config.reserved_capacity < a.config.capacity
  pub size : length a.queue.slots ≡ a.config.capacity
  pub head_fits : a.queue.head < a.config.capacity
  pub count_fits : a.queue.count ≤ a.config.capacity
  pub pending : a.health.pending ≡ a.queue.count
  pub depth : a.queue.count ≤ a.health.max_depth
  pub depth_fits : a.health.max_depth ≤ a.config.capacity
  pub runs : a.health.running ≡ a.running
  pub accepts : a.health.accepting ≡ a.accepting

pub push-IsValid :
    (a : Actor) (r : Request)
    → IsValid a
    → a.queue.count < a.config.capacity
    → IsValid (queue_push_locked a r)
unfolding queue_push_locked ring_push
push-IsValid a r v p = record {
  reserved = v.reserved;
  size = length-set a.queue.slots _ _ ∙ v.size;
  head_fits = v.head_fits;
  count_fits = omega arith;
  pending = refl;
  depth = ground arith;
  depth_fits = ground (arith, v.depth_fits);
  runs = v.runs;
  accepts = v.accepts;
}

pub pop_first-IsValid : (a : Actor) → IsValid a → IsValid (pop_first a).1
unfolding pop_first ring_pop
pop_first-IsValid a v = record {
  reserved = v.reserved;
  size = length-set a.queue.slots _ _ ∙ v.size;
  head_fits = mod-lt (a.queue.head + 1) (omega (arith, v.reserved));
  count_fits = omega (arith, v.count_fits);
  pending = refl;
  depth = omega (arith, v.depth);
  depth_fits = v.depth_fits;
  runs = v.runs;
  accepts = v.accepts;
}

pub pop-IsValid : (a : Actor) → IsValid a → IsValid (queue_pop_locked a).1
unfolding queue_pop_locked
pop-IsValid a v = elim (Bool-cases (a.queue.count == 0)) [
  | inl e ↦ subst IsValid {x = a} (ground arith) v
  | inr e ↦ subst IsValid {x = (pop_first a).1} (ground arith) (pop_first-IsValid a v)
]

-- A region that leaves the queue alone.
pub flags-IsValid :
    {a : Actor}
    → IsValid a
    → (b : Actor) → b.config ≡ a.config
    → b.queue ≡ a.queue
    → b.health.pending ≡ a.health.pending
    → b.health.max_depth ≡ a.health.max_depth
    → b.health.running ≡ b.running
    → b.health.accepting ≡ b.accepting
    → IsValid b
flags-IsValid {a} v b c q n d r k = record {
  reserved = ground (arith, v.reserved);
  size = rw q (rw c v.size);
  head_fits = rw q (rw c v.head_fits);
  count_fits = rw q (rw c v.count_fits);
  pending = rw n (rw q v.pending);
  depth = rw q (rw d v.depth);
  depth_fits = rw d (rw c v.depth_fits);
  runs = r;
  accepts = k;
}

pub set_last-IsValid : (a : Actor) (q r : Request) → IsValid a → IsValid (coalesce a r q).0
unfolding coalesce ring_set_last
set_last-IsValid a q r v = record {
  reserved = v.reserved;
  size = length-set a.queue.slots _ _ ∙ v.size;
  head_fits = v.head_fits;
  count_fits = v.count_fits;
  pending = v.pending;
  depth = v.depth;
  depth_fits = v.depth_fits;
  runs = v.runs;
  accepts = v.accepts;
}
