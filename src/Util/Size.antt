-- ===== src/Util/Size.antt =====
-- source/util/size.h: arithmetic on `size_t` that does not wrap, and the growth of a buffer's capacity.
-- The result is what the out pointer receives; `out` tells that the pointer is not NULL. The loop of
-- `nxcast_size_grow` runs on fuel, the required size, since each turn adds at least 1.
use nx_cast.Base.{
  ℕ, suc, ◌≡◌, refl, arith, Bool, true, false, not, Option, some, none, if◌then◌else◌, ◌||◌, ◌&&◌,
  Bool-cases, ◌⊎◌, inl, inr, ltb, leb, ◌==◌, ◌+◌, ◌-◌, ◌*◌, ◌/◌, zero, u64, u64_mod, ◌<◌, ◌≤◌,
}

-- `SIZE_MAX` of a 64-bit machine.
abbrev pub size_max : ℕ
size_max = u64_mod - 1

unfoldable pub size_add : (out : Bool) → ℕ → ℕ → Option ℕ
size_add out left right =
    if not out || ltb (size_max - left) right then none else some (u64 (left + right))

-- The capacity after a turn of the loop.
unfoldable pub grown : ℕ → ℕ → ℕ
grown capacity limit = if ltb (limit / 2) capacity then limit else u64 (capacity * 2)

unfoldable pub grow_loop : (fuel : ℕ) → ℕ → ℕ → ℕ → Option ℕ
grow_loop zero capacity required limit = if ltb capacity required then none else some capacity
grow_loop (suc fuel) capacity required limit =
    let next = grown capacity limit in
    let rest = grow_loop fuel next required limit in
    if not (ltb capacity required)
    then some capacity
    else if ltb next required && next == limit
    then none
    else rest

unfoldable pub size_grow : (out : Bool) → ℕ → ℕ → ℕ → ℕ → Option ℕ
size_grow out current required initial limit =
    let capacity = if ltb 0 current then current else initial in
    let rest = grow_loop required capacity required limit in
    if not out || initial == 0 || ltb limit current || ltb limit required
    then none
    else if leb required current
    then some current
    else if ltb limit capacity
    then none
    else rest

grown_more :
    (c limit : ℕ)
    → 1 ≤ c
    → c < limit
    → limit < u64_mod
    → (c < grown c limit) × (grown c limit ≤ limit)
unfolding grown
grown_more c limit a b d = ground arith

grow_loop-some :
    (fuel c required limit : ℕ)
    → 1 ≤ c
    → c ≤ limit
    → required ≤ limit
    → limit < u64_mod
    → required ≤ c + fuel
    → (r : ℕ) × (grow_loop fuel c required limit ≡ some r) × (required ≤ r) × (r ≤ limit) × (c ≤ r)
unfolding grow_loop
grow_loop-some zero c required limit a b d e f =
    (c, ground arith, omega arith, omega arith, omega arith)
grow_loop-some (suc fuel) c required limit a b d e f = elim (Bool-cases (ltb c required)) [
  | inr k ↦ (c, ground arith, ground arith, b, omega arith)
  | inl k ↦
      let (more, fits) = grown_more c limit a (ground arith) e in
      let (r, same, big, small, up) =
        grow_loop-some fuel (grown c limit) required limit (omega arith) fits d e (omega arith) in
      (r, ground arith, big, small, omega arith)
]

-- `nxcast_size_grow` with a valid out pointer, a positive initial capacity within the limit and a current
-- and a required size within the limit, a 64-bit word, always succeeds: its loop ends, and the new capacity is at
-- least the required and the current one and at most the limit.
pub size_grow-some :
    (current required initial limit : ℕ)
    → 1 ≤ initial
    → initial ≤ limit
    → current ≤ limit
    → required ≤ limit
    → limit < u64_mod
    → (r : ℕ) × (size_grow true current required initial limit ≡ some r)
      × (required ≤ r)
      × (current ≤ r)
      × (r ≤ limit)
unfolding size_grow
size_grow-some current required initial limit a b d e f = elim (Bool-cases (ltb 0 current)) [
  | inl k ↦
      let (r, same, big, small, up) =
        grow_loop-some required current required limit (ground arith) d e f (omega arith) in
      elim (Bool-cases (leb required current)) [
        | inl g ↦ (current, ground arith, ground arith, omega arith, d)
        | inr g ↦ (r, ground arith, big, up, small)
      ]
  | inr k ↦
      let (r, same, big, small, up) =
        grow_loop-some required initial required limit a b e f (omega arith) in
      elim (Bool-cases (leb required current)) [
        | inl g ↦ (current, ground arith, ground arith, omega arith, d)
        | inr g ↦ (r, ground arith, big, ground arith, small)
      ]
]

-- `nxcast_size_add` of two machine words either gives their sum, which then fits, or fails, and then the
-- pointer is NULL or the sum does not fit.
pub size_add-exact :
    (out : Bool) (left right : ℕ)
    → left < u64_mod
    → right < u64_mod
    → ((size_add out left right ≡ some (left + right)) × (left + right < u64_mod))
      ⊎ ((size_add out left right ≡ none) × ((out ≡ false) ⊎ (u64_mod ≤ left + right)))
unfolding size_add
size_add-exact true left right a b = elim (Bool-cases (ltb (size_max - left) right)) [
  | inl k ↦ inr (ground arith, inr (ground arith))
  | inr k ↦ inl (ground arith, ground arith)
]
size_add-exact false left right a b = inr (refl, inl refl)
