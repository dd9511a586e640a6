-- ===== src/Player/Ownership/Fencing.antt =====
-- Generations of source/player/core/ownership.c over a history of calls.
use nx_cast.Base.{
  ℕ, ◌+◌, ◌-◌, ◌<◌, ◌≡◌, ◌⊎◌, inl, true, false, not, ◌&&◌, Option, some, List, [], ◌∷◌, arith,
  u32_mod,
}
use nx_cast.Player.Ownership.{
  MediaOwner, owner_eq, Lease, Ownership, bump_generation, validate, Call, claims, releases,
  releases_current, resets, step,
}
use nx_cast.Player.Ownership.Leases.{IsFenced, step-IsFenced, validate_iff}

pub run : Ownership → List Call → Ownership
run s [] = s
run s (c ∷ cs) = run (step s c) cs

-- The calls that issue a generation: a claim that succeeds, and a reset.
pub issues : Call → ℕ
issues (claims owner token lease_out) = elim (not (owner_eq owner MediaOwner.none) && lease_out) [
  | true ↦ 1
  | false ↦ 0
]
issues (releases _) = 0
issues (releases_current _ _) = 0
issues resets = 1

unfoldable pub issued : List Call → ℕ
unfolding issues
issued [] = 0
issued (c ∷ cs) = issues c + issued cs

pub run-IsFenced : (s : Ownership) (cs : List Call) → IsFenced s → IsFenced (run s cs)
unfolding run
run-IsFenced s [] v = v
run-IsFenced s (c ∷ cs) v = run-IsFenced (step s c) cs (step-IsFenced s c v)

step-generation :
    (s : Ownership) (c : Call)
    → s.next_generation < u32_mod
    → 0 < s.next_generation
    → (((step s c).next_generation ≡ s.next_generation + issues c)
        × ((step s c).next_generation < u32_mod))
      ⊎ ((s.next_generation + 1 ≡ u32_mod)
          × ((step s c).next_generation ≡ issues c)
          × (issues c ≡ 1))
unfolding step issues bump_generation
step-generation s (claims owner token lease_out) h p = ground arith
step-generation s (releases Option.none) h p = ground arith
step-generation s (releases (some l)) h p = ground arith
step-generation s (releases_current owner token) h p = ground arith
step-generation s resets h p = ground arith

-- The counter walks the 2 ^ 32 - 1 nonzero words in a circle.
pub run-generation :
    (s : Ownership) (cs : List Call)
    → s.next_generation < u32_mod
    → 0 < s.next_generation
    → issued cs + 1 < u32_mod
    → ((run s cs).next_generation ≡ s.next_generation + issued cs)
      ⊎ ((run s cs).next_generation + (u32_mod - 1) ≡ s.next_generation + issued cs)
unfolding run issued
run-generation s [] h p n = inl (omega arith)
run-generation s (c ∷ cs) h p n =
    let here = step-generation s c h p in ground (arith, here, run-generation (step s c) cs)

-- A lease that validates in `s` no longer does after any history of calls in which at least one
-- claim succeeded or one reset ran, as long as fewer than 2 ^ 32 - 1 generations were issued; so a
-- command that was queued under an old lease cannot reach a later owner's playback.
pub stale_lease_fenced :
    (s : Ownership) (l : Lease) (cs : List Call)
    → IsFenced s
    → validate (some l) s ≡ true
    → 0 < issued cs
    → issued cs + 1 < u32_mod
    → validate (some l) (run s cs) ≡ false
stale_lease_fenced s l cs v valid some_issued bounded = ground (
  arith,
  validate_iff s l v,
  validate_iff (run s cs) l (run-IsFenced s cs v),
  run-IsFenced s cs v,
  run-generation s cs,
)
