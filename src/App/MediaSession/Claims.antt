-- ===== src/App/MediaSession/Claims.antt =====
-- Claims that reach the session of source/app/protocol_media_session.c from
-- source/player/core/ownership.c, in order and out of order.
use nx_cast.Base.{ℕ, ◌<◌, ◌≡◌, ◌≢◌, ◌⊎◌, true, false, arith, u32_mod}
use nx_cast.Player.Ownership.{MediaOwner, Lease, Ownership, bump_generation, lease_equal, claim}
use nx_cast.Player.Ownership.Leases.{owner_eq_iff, lease_equal_iff, bump_generation_fresh}
use nx_cast.Player.Ownership.Leases
use nx_cast.App.MediaSession.{
  preparing, Playback, Control, claimed, Event, Session, applied, stale, lease_valid,
  generation_newer, transition,
}
use nx_cast.App.MediaSession.Laws.{lease_valid_iff}

abbrev pub claim_event : Lease → Event
claim_event l = record { kind = claimed; lease = l }

-- The next generation is newer, also where the counter wraps past 0.
pub generation_newer-bump :
    (g : ℕ) → g < u32_mod → g ≢ 0 → generation_newer (bump_generation g) g ≡ true
unfolding generation_newer bump_generation
generation_newer-bump g h n = ground arith

-- Two generations are never newer than one another.
pub generation_newer_asymm :
    (a b : ℕ)
    → a < u32_mod
    → b < u32_mod
    → generation_newer a b ≡ true
    → generation_newer b a ≡ false
unfolding generation_newer
generation_newer_asymm a b ha hb h = ground arith

generation_newer_irrefl : (a : ℕ) → generation_newer a a ≡ false
unfolding generation_newer
generation_newer_irrefl a = ground arith

-- A session that holds the lease of the ownership module, or none, accepts the lease of the next
-- successful claim, and starts over with nothing known.
pub claim-applied :
    (o : Ownership) (s : Session) (owner : MediaOwner) (token : ℕ)
    → Leases.IsFenced o
    → owner ≢ MediaOwner.none
    → (s.lease.generation ≡ 0) ⊎ (s.lease.generation ≡ o.next_generation)
    → let l = (claim owner token true o).lease in
      let r = transition s (claim_event l) in
      (r.1 ≡ applied)
      × (r.0.lease ≡ (claim owner token true o).after.current)
      × (r.0.lifecycle ≡ preparing)
      × (r.0.playback ≡ Playback.unknown)
      × (r.0.control ≡ Control.unknown)
unfolding claim transition lease_valid lease_equal
claim-applied o s owner token v real held = ground (
  arith,
  owner_eq_iff owner MediaOwner.none,
  bump_generation_fresh o.next_generation,
  generation_newer-bump o.next_generation,
)

-- Of two valid claims, one newer than the other, and both newer than the lease that the session holds,
-- unless it holds none: in either order of delivery the newer one ends as the session's lease,
-- with the same lifecycle, playback and control; in order it is applied, and when the newer one
-- came first the older is stale.
pub claims_commute :
    (s : Session) (old new : Lease)
    → s.lease.generation < u32_mod
    → old.generation < u32_mod
    → new.generation < u32_mod
    → lease_valid old ≡ true
    → lease_valid new ≡ true
    → generation_newer new.generation old.generation ≡ true
    → (s.lease.generation ≡ 0)
      ⊎ ((generation_newer old.generation s.lease.generation ≡ true)
          × (generation_newer new.generation s.lease.generation ≡ true))
    → let in_order = transition (transition s (claim_event old)).0 (claim_event new) in
      let overtaken = transition (transition s (claim_event new)).0 (claim_event old) in
      (in_order.1 ≡ applied)
      × (overtaken.1 ≡ stale)
      × (in_order.0.lease ≡ new)
      × (overtaken.0.lease ≡ new)
      × (overtaken.0.lifecycle ≡ in_order.0.lifecycle)
      × (overtaken.0.playback ≡ in_order.0.playback)
      × (overtaken.0.control ≡ in_order.0.control)
unfolding transition
claims_commute s old new hs ho hn vo vn later free = ground (
  arith,
  lease_valid_iff old,
  lease_valid_iff new,
  lease_equal_iff s.lease old,
  lease_equal_iff s.lease new,
  lease_equal_iff old new,
  lease_equal_iff new old,
  generation_newer_irrefl old.generation,
  generation_newer_irrefl new.generation,
  generation_newer_irrefl s.lease.generation,
  generation_newer_asymm new.generation old.generation,
)
