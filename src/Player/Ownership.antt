-- ===== src/Player/Ownership.antt =====
-- source/player/core/ownership.h and ownership.c: which protocol owns the player. `Ownership` holds
-- the globals `g_current` and `g_next_generation`; each function is what runs under `g_mutex`. A
-- `const` pointer argument that may be NULL is an `Option`, an out pointer a Boolean that says
-- whether it was given, with the value written among the results.
pub mod Leases
pub mod Fencing
mod Tests
use nx_cast.Base.{
  ℕ, ◌+◌, Bool, true, false, not, ◌&&◌, ◌||◌, Option, some, ◌==◌, if◌then◌else◌, u32,
}

pub data MediaOwner : Type 0 where
  none dlna iptv airplay_video airplay_mirror : MediaOwner

-- `==` on the enumeration.
unfoldable pub owner_eq : MediaOwner → MediaOwner → Bool
owner_eq none none = true
owner_eq dlna dlna = true
owner_eq iptv iptv = true
owner_eq airplay_video airplay_video = true
owner_eq airplay_mirror airplay_mirror = true
owner_eq _ _ = false

pub record Lease : Type 0 where
  pub owner : MediaOwner
  pub token : ℕ  -- uint64_t
  pub generation : ℕ  -- uint32_t

-- What `memset(&g_current, 0, sizeof(g_current))` leaves.
abbrev pub zero_lease : Lease
zero_lease = record { owner = MediaOwner.none; token = 0; generation = 0 }

pub record Ownership : Type 0 where
  pub current : Lease
  pub next_generation : ℕ  -- uint32_t

-- The globals at program start.
abbrev pub initial : Ownership
initial = record { current = zero_lease; next_generation = 0 }

-- `++g`, and once more where that wrapped to 0: the new value of `g_next_generation`.
unfoldable pub bump_generation : ℕ → ℕ
bump_generation g = let g' = u32 (g + 1) in if g' == 0 then u32 (g' + 1) else g'

unfoldable pub lease_equal : Lease → Lease → Bool
lease_equal left right =
    owner_eq left.owner right.owner
    && (left.token == right.token && left.generation == right.generation)

pub record Claim : Type 0 where
  pub ok : Bool
  pub lease : Lease
  pub previous : Lease
  pub after : Ownership

-- `player_ownership_claim`; on failure nothing is written.
unfoldable pub claim : MediaOwner → ℕ → Bool → Ownership → Claim
claim owner token lease_out s =
    if owner_eq owner none || not lease_out
    then record { ok = false; lease = zero_lease; previous = zero_lease; after = s }
    else record {
      ok = true;
      lease = taken;
      previous = s.current;
      after = record { current = taken; next_generation = generation };
    }
  where
    generation : ℕ
    generation = bump_generation s.next_generation

    taken : Lease
    taken = record { owner = owner; token = token; generation = generation }

-- `player_ownership_current` with an out pointer: its result and what it writes.
unfoldable pub current_lease : Ownership → Bool × Lease
current_lease s = (not (owner_eq s.current.owner none), s.current)

unfoldable pub validate : Option Lease → Ownership → Bool
validate Option.none s = false
validate (some lease) s =
    if owner_eq lease.owner none || lease.generation == 0
    then false
    else lease_equal lease s.current

unfoldable pub matches : MediaOwner → ℕ → Ownership → Bool
matches owner token s =
    if owner_eq owner none
    then false
    else owner_eq s.current.owner owner && s.current.token == token

unfoldable pub release : Option Lease → Ownership → Bool × Ownership
release Option.none s = (false, s)
release (some lease) s =
    if lease_equal lease s.current then (true, record s { current = zero_lease }) else (false, s)

-- `player_ownership_release_current`, which also accepts the owner `none`.
unfoldable pub release_current : MediaOwner → ℕ → Ownership → Bool × Ownership
release_current owner token s =
    if owner_eq s.current.owner owner && s.current.token == token
    then (true, record s { current = zero_lease })
    else (false, s)

unfoldable pub reset : Ownership → Ownership
reset s = record { current = zero_lease; next_generation = bump_generation s.next_generation }

-- The calls that other threads may make, in the order in which they take the mutex.
pub data Call : Type 0 where
  claims : MediaOwner → ℕ → Bool → Call
  releases : Option Lease → Call
  releases_current : MediaOwner → ℕ → Call
  resets : Call

pub step : Ownership → Call → Ownership
unfolding claim release release_current reset
step s (claims owner token lease_out) = (claim owner token lease_out s).after
step s (releases lease) = (release lease s).1
step s (releases_current owner token) = (release_current owner token s).1
step s resets = reset s
