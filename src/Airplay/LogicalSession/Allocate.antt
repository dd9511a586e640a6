-- ===== src/Airplay/LogicalSession/Allocate.antt =====
-- `allocate_logical_id` of source/protocol/airplay/protocol/logical_session.c finds a free id within its
-- nine attempts, since the table has eight entries.
use nx_cast.Base.{
  ℕ, zero, suc, ◌+◌, ◌-◌, ◌%◌, ◌≤◌, ◌<◌, ◌≡◌, ◌≢◌, inl, inr, refl, Bool, ◌&&◌, some, none, List,
  arith, ltb, leb, u64_mod, Option-cases,
}
use nx_cast.Base.Slots.{
  one_if, weigh, weigh_bound, weigh_add_le, weigh_le, find_slot, find_slot-some,
}
use nx_cast.Airplay.LogicalSession.Entries.{
  Logical, Manager, first_logical_id, has_logical_id, next_id, allocate_from, allocate_logical_id,
}
use nx_cast.Airplay.LogicalSession.Invariant.{Inv, with_id}

-- The ids that `k` attempts try from the counter `n`, in the circle of 2 ^ 63 ids.
abbrev in_window : ℕ → ℕ → ℕ → Bool
in_window n k id = leb first_logical_id id && ltb ((id + first_logical_id - n) % first_logical_id) k

abbrev window : ℕ → ℕ → Logical → ℕ
window n k l =
    one_if (l.used && (ltb l.logical_session_id u64_mod && in_window n k l.logical_session_id))

-- The first id is in the window, and not among those of the later attempts.
window-step :
    (n k : ℕ) (l : Logical)
    → first_logical_id ≤ n
    → n < u64_mod
    → k < 64
    → with_id n l + window (next_id n) k l ≤ window n (suc k) l
window-step n k l lo hi h = ground arith

weigh_found :
    (n : ℕ) (ls : List Logical) {i : ℕ} {l : Logical}
    → find_slot (has_logical_id n) ls ≡ some (i, l)
    → 1 ≤ weigh (with_id n) ls
weigh_found n ls {i} {l} h =
    let at = find_slot-some (has_logical_id n) ls h in
    ground (arith, weigh_le (with_id n) ls i {x = l} at.0)

next_id_bounds : (n : ℕ) → (first_logical_id ≤ next_id n) × (next_id n < u64_mod)
next_id_bounds n = ground arith

-- If `k` attempts fail, all the ids that they tried are taken.
allocate_from-taken :
    (k n : ℕ) (ls : List Logical)
    → first_logical_id ≤ n
    → n < u64_mod
    → k ≤ 64
    → (allocate_from k ls n).0 ≡ 0
    → k ≤ weigh (window n k) ls
unfolding allocate_from
allocate_from-taken zero n ls lo hi b h = omega arith
allocate_from-taken (suc k) n ls lo hi b h = elim (Option-cases (find_slot (has_logical_id n) ls)) [
  | inl e ↦ absurd (ground arith)
  | inr ((i, l), e) ↦
      let next = next_id_bounds n in
      let rest = allocate_from-taken k (next_id n) ls next.0 next.1 (omega arith) (ground arith) in
      let split =
        weigh_add_le (with_id n) (window (next_id n) k) (window n (suc k)) ls
          (λ x. window-step n k x lo hi (omega arith)) in
      omega (arith, rest, split, weigh_found n ls e)
]

-- An id that is returned is not 0 and not in use.
allocate_from-fresh :
    (k n : ℕ) (ls : List Logical)
    → (allocate_from k ls n).0 ≢ 0
    → find_slot (has_logical_id (allocate_from k ls n).0) ls ≡ none
unfolding allocate_from
allocate_from-fresh zero n ls h = absurd (h refl)
allocate_from-fresh (suc k) n ls h =
    ground
      (arith, allocate_from-fresh k (next_id n) ls, Option-cases (find_slot (has_logical_id n) ls))

-- The counter stays in the upper half of the 64-bit words.
allocate_from_bounds :
    (k n : ℕ) (ls : List Logical)
    → first_logical_id ≤ n
    → n < u64_mod
    → (first_logical_id ≤ (allocate_from k ls n).1) × ((allocate_from k ls n).1 < u64_mod)
unfolding allocate_from
allocate_from_bounds zero n ls lo hi = (lo, hi)
allocate_from_bounds (suc k) n ls lo hi =
    let next = next_id_bounds n in
    ground (arith, next, allocate_from_bounds k (next_id n) ls next.0 next.1)

-- In well-formed tables the allocation always succeeds, with an id that no session in use has: the
-- nine attempts suffice, also where the counter wraps.
pub allocate_logical_id-fresh :
    (m : Manager)
    → Inv m
    → ((allocate_logical_id m).0 ≢ 0)
      × (find_slot (has_logical_id (allocate_logical_id m).0) m.logical_sessions ≡ none)
unfolding allocate_logical_id
allocate_logical_id-fresh m v =
    (found, allocate_from-fresh 9 m.next_logical_session_id m.logical_sessions found)
  where
    found : (allocate_from 9 m.logical_sessions m.next_logical_session_id).0 ≢ 0
    found e = omega (
      arith,
      allocate_from-taken 9 m.next_logical_session_id m.logical_sessions v.counter_high
          v.counter_fits (omega arith) e,
      weigh_bound (window m.next_logical_session_id 9) (λ l. ground arith) m.logical_sessions,
      v.logical_slots,
    )

pub allocate_logical_id_bounds :
    (m : Manager)
    → Inv m
    → (first_logical_id ≤ (allocate_logical_id m).1) × ((allocate_logical_id m).1 < u64_mod)
unfolding allocate_logical_id
allocate_logical_id_bounds m v =
    allocate_from_bounds 9 m.next_logical_session_id m.logical_sessions v.counter_high
      v.counter_fits
