-- ===== src/Player/Ownership/Tests.antt =====
-- Runs of the lease, and the theorems about it at concrete inputs.
use nx_cast.Base.{◌≡◌, refl, true, false, some, List, [], ◌∷◌, arith}
use nx_cast.Player.Ownership.{
  dlna, iptv, airplay_video, zero_lease, Ownership, initial, bump_generation, owner_eq, lease_equal,
  claim, validate, release, Call, claims, releases_current, resets, step,
}
use nx_cast.Player.Ownership.Leases.{
  IsFenced, initial-IsFenced, step-IsFenced, claim_takes_over, release_lem,
}
use nx_cast.Player.Ownership.Fencing.{run, issued, stale_lease_fenced}

-- Owned by a DLNA sender, with one generation left before the counter wraps.
abbrev late : Ownership
late = record {
  current = record { owner = dlna; token = 7; generation = 4294967295 };
  next_generation = 4294967295;
}

late-IsFenced : IsFenced late
late-IsFenced = ground arith

wraps_past_zero : bump_generation 4294967295 ≡ 1
unfolding bump_generation
wraps_past_zero = refl

step-IsFenced_example : IsFenced (step late (claims iptv 9 true))
step-IsFenced_example = step-IsFenced late (claims iptv 9 true) late-IsFenced

-- Nobody owns the player at first.
claim_takes_over_example : (claim iptv 9 true initial).ok ≡ true
claim_takes_over_example =
    (claim_takes_over initial iptv 9 late.current initial-IsFenced (λ e. cc)).0

release_lem_example : release (some zero_lease) late ≡ (false, late)
release_lem_example = (release_lem late zero_lease late.current).1 (λ e. cc)

abbrev history : List Call
history = releases_current dlna 7 ∷ claims airplay_video 3 true ∷ resets ∷ []

stale_lease_fenced_example : validate (some late.current) (run late history) ≡ false
unfolding validate lease_equal owner_eq issued
stale_lease_fenced_example =
    stale_lease_fenced late late.current history late-IsFenced refl (omega arith) (omega arith)
