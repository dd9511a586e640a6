-- ===== src/Player/Ownership/Leases.antt =====
-- What holds of the lease in source/player/core/ownership.c between two calls.
use nx_cast.Base.{ℕ, ◌<◌, ◌≡◌, ◌≢◌, ◌↔◌, ◌⊎◌, refl, true, false, Option, some, arith, u32_mod}
use nx_cast.Player.Ownership.{
  MediaOwner, owner_eq, Lease, zero_lease, Ownership, initial, bump_generation, lease_equal, claim,
  validate, matches, release, release_current, reset, Call, claims, releases, releases_current,
  resets, step,
}

pub owner_eq_iff : (a b : MediaOwner) → (owner_eq a b ≡ true) ↔ (a ≡ b)
unfolding owner_eq
owner_eq_iff a b = ground arith

pub lease_equal_iff : (l m : Lease) → (lease_equal l m ≡ true) ↔ (l ≡ m)
unfolding lease_equal
lease_equal_iff l m = ground (arith, owner_eq_iff l.owner m.owner)

-- A new generation differs from the old one, is not 0, and fits 32 bits.
pub bump_generation_fresh :
    (g : ℕ)
    → g < u32_mod
    → (bump_generation g ≢ 0) × (bump_generation g < u32_mod) × (bump_generation g ≢ g)
unfolding bump_generation
bump_generation_fresh g h = ground arith

-- Either nobody owns the player, or the owner holds the newest generation.
pub record IsFenced (s : Ownership) : Type 0 where
  pub bounded : s.next_generation < u32_mod
  pub held :
      (s.current ≡ zero_lease)
      ⊎ ((s.current.owner ≢ MediaOwner.none) × (s.current.generation ≡ s.next_generation))
  pub issued : s.current.owner ≢ MediaOwner.none → s.current.generation ≢ 0

pub initial-IsFenced : IsFenced initial
initial-IsFenced = ground arith

-- Every call, whatever its arguments, keeps the invariant.
pub step-IsFenced : (s : Ownership) (c : Call) → IsFenced s → IsFenced (step s c)
unfolding step
step-IsFenced s (claims owner token lease_out) v =
    ground (arith, bump_generation_fresh s.next_generation, owner_eq_iff owner MediaOwner.none)
step-IsFenced s (releases Option.none) v = v
step-IsFenced s (releases (some l)) v = ground arith
step-IsFenced s (releases_current owner token) v = ground arith
step-IsFenced s resets v = ground (arith, bump_generation_fresh s.next_generation)

-- The calls by themselves.
pub claim-IsFenced :
    (s : Ownership) (owner : MediaOwner) (token : ℕ)
    → IsFenced s
    → IsFenced (claim owner token true s).after
unfolding step
claim-IsFenced s owner token v = step-IsFenced s (claims owner token true) v

pub release-IsFenced : (s : Ownership) (l : Option Lease) → IsFenced s → IsFenced (release l s).1
unfolding step
release-IsFenced s l v = step-IsFenced s (releases l) v

pub release_current-IsFenced :
    (s : Ownership) (owner : MediaOwner) (token : ℕ)
    → IsFenced s
    → IsFenced (release_current owner token s).1
unfolding step
release_current-IsFenced s owner token v = step-IsFenced s (releases_current owner token) v

pub reset-IsFenced : (s : Ownership) → IsFenced s → IsFenced (reset s)
unfolding step
reset-IsFenced s v = step-IsFenced s resets v

-- What the calls leave as the current lease.
pub current-release :
    (s : Ownership) (l : Option Lease)
    → (release l s).0 ≡ true
    → (release l s).1.current ≡ zero_lease
unfolding release
current-release s Option.none h = cc
current-release s (some l) h = ground arith

pub current-release_current :
    (s : Ownership) (owner : MediaOwner) (token : ℕ)
    → (release_current owner token s).0 ≡ true
    → (release_current owner token s).1.current ≡ zero_lease
unfolding release_current
current-release_current s owner token h = ground arith

pub current-reset : (s : Ownership) → (reset s).current ≡ zero_lease
unfolding reset
current-reset s = refl

-- A lease validates exactly when it is the current one and somebody owns the player.
pub validate_iff :
    (s : Ownership) (l : Lease)
    → IsFenced s
    → (validate (some l) s ≡ true) ↔ ((l ≡ s.current) × (l.owner ≢ MediaOwner.none))
unfolding validate
validate_iff s l v =
    ground (arith, lease_equal_iff l s.current, owner_eq_iff l.owner MediaOwner.none)

-- A claim for a real owner takes the player, whether or not anybody owned it: it succeeds, reports the
-- lease held before, and the new lease is the current one and validates; `matches` names its owner and
-- token; and no lease validates both before and after.
pub claim_takes_over :
    (s : Ownership) (owner : MediaOwner) (token : ℕ) (old : Lease)
    → IsFenced s
    → owner ≢ MediaOwner.none
    → let c = claim owner token true s in
      (c.ok ≡ true)
      × (c.previous ≡ s.current)
      × (c.after.current ≡ c.lease)
      × (validate (some c.lease) c.after ≡ true)
      × (matches owner token c.after ≡ true)
      × ((validate (some old) s ≡ false) ⊎ (validate (some old) c.after ≡ false))
unfolding claim validate matches lease_equal
claim_takes_over s owner token old v real = ground (
  arith,
  bump_generation_fresh s.next_generation,
  owner_eq_iff owner MediaOwner.none,
  owner_eq_iff owner owner,
  owner_eq_iff old.owner owner,
  owner_eq_iff old.owner s.current.owner,
)

-- Releasing succeeds for the current lease alone, leaves the player unowned, and then no lease
-- validates; any other lease changes nothing.
pub release_lem :
    (s : Ownership) (l any : Lease)
    → ((l ≡ s.current)
        → (release (some l) s ≡ (true, record s { current = zero_lease }))
          × (validate (some any) (release (some l) s).1 ≡ false))
      × (l ≢ s.current → release (some l) s ≡ (false, s))
unfolding release validate lease_equal
release_lem s l any = (
  λ e. ground (
    arith,
    owner_eq_iff l.owner s.current.owner,
    owner_eq_iff any.owner MediaOwner.none,
    owner_eq_iff MediaOwner.none any.owner,
  ),
  λ n. ground (arith, lease_equal_iff l s.current),
)
