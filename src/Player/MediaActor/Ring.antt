-- ===== src/Player/MediaActor/Ring.antt =====
-- The command ring of source/player/core/media_actor.c: `queue`, `queue_head`, `queue_count` and
-- `config.capacity`, and the list of entries that it stands for.
use nx_cast.Base.{ℕ, ◌+◌, ◌-◌, ◌%◌, Option, some, none, List, map, get_elem?, set, replicate}

pub record Ring {ℓ} (A : Type ℓ) : Type ℓ where
  pub slots : List (Option A)
  pub head : ℕ
  pub count : ℕ

module _ {ℓ} {A : Type ℓ} where
  -- `calloc(capacity)` of the queue.
  abbrev pub empty_ring : ℕ → Ring A
  empty_ring capacity = record { slots = replicate capacity none; head = 0; count = 0 }

  -- `queue[i]`; out of range, which the code never reads, is NULL.
  abbrev pub slot : Option (Option A) → Option A
  slot none = none
  slot (some x) = x

  -- `queue_push_locked`, the ring's part.
  unfoldable pub ring_push : ℕ → Ring A → A → Ring A
  ring_push capacity r x = record r {
    slots = set r.slots ((r.head + r.count) % capacity) (some x);
    count = r.count + 1;
  }

  -- `queue_pop_locked`, the ring's part, for a queue that is not empty.
  unfoldable pub ring_pop : ℕ → Ring A → Option A × Ring A
  ring_pop capacity r = (
    slot (get_elem? r.slots r.head),
    record { slots = set r.slots r.head none; head = (r.head + 1) % capacity; count = r.count - 1 },
  )

  -- A write to the entries that are pointed at, which leaves the pointers.
  unfoldable pub on_entry : (A → A) → Option A → Option A
  on_entry f none = none
  on_entry f (some x) = some (f x)

  unfoldable pub ring_map : (A → A) → Ring A → Ring A
  ring_map f r = record r { slots = map (on_entry f) r.slots }

  -- The entry at the tail, `queue[(queue_head + queue_count - 1) % capacity]`, and a write to it.
  abbrev pub tail_index : ℕ → Ring A → ℕ
  tail_index capacity r = (r.head + r.count - 1) % capacity

  unfoldable pub ring_last : ℕ → Ring A → Option A
  ring_last capacity r = slot (get_elem? r.slots (tail_index capacity r))

  unfoldable pub ring_set_last : ℕ → Ring A → A → Ring A
  ring_set_last capacity r x = record r { slots = set r.slots (tail_index capacity r) (some x) }
