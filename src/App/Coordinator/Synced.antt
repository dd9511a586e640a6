-- ===== src/App/Coordinator/Synced.antt =====
-- source/app/protocol_coordinator.c with source/player/core/ownership.c: what the coordinator shows is
-- what the ownership module holds.
use nx_cast.Base.{ℕ, ◌≡◌, refl, sym, ap, ◌∙◌, subst, arith, Bool, true, false, some, if◌then◌else◌}
use nx_cast.Player.Ownership.{MediaOwner, Lease, zero_lease, Ownership}
use nx_cast.Player.Ownership.Leases.{IsFenced, owner_eq_iff, lease_equal_iff}
use nx_cast.App.MediaSession.{Event, Session, transition, lease_valid}
use nx_cast.App.MediaSession.Laws.{Inv}
use nx_cast.App.Coordinator.Data.{ResourceMode, home, Coordinator, World, media_ownership}
use nx_cast.App.Coordinator.Resources.{resource_mode_for_owner}
use nx_cast.App.Coordinator.Media.{
  is_authority, claim_of, release_of, set_active_media, media_claimed, media_released,
}
use nx_cast.App.Coordinator.Shows.{
  Shows, apply_media_event-Shows, set_desired_resource_mode-Shows, apply_discovery_suspension-Shows,
}

abbrev pub wanted : Bool → MediaOwner → ResourceMode
wanted exclusive owner = if exclusive then resource_mode_for_owner owner else home

-- The media session is well formed and carries the lease that the ownership module holds; the media
-- shown is that lease; and the wanted resource mode is that of its owner.
pub record IsSynced (w : World) : Type 0 where
  pub fenced : IsFenced w.ownership
  pub inv : Inv w.coordinator.snapshot.media_session
  pub mirror : w.coordinator.snapshot.media_session.lease ≡ w.ownership.current
  pub shows :
      Shows w.coordinator.snapshot.media_session
        (wanted w.coordinator.exclusive_media_resources w.ownership.current.owner)
        w.coordinator.exclusive_media_resources
        w.coordinator

-- From what the coordinator shows, whatever the session is called.
pub shown-IsSynced :
    (o : Ownership) (c : Coordinator) (s : Session) (e : Bool)
    → IsFenced o
    → Inv s
    → s.lease ≡ o.current
    → Shows s (wanted e o.current.owner) e c
    → IsSynced (record { ownership = o; coordinator = c })
shown-IsSynced o c s e f v m h = record {
  fenced = f;
  inv = subst Inv (sym h.session) v;
  mirror = ap (λ (t : Session). t.lease) h.session ∙ m;
  shows = record {
    session = refl;
    media = h.media ∙ sym (ap (λ (t : Session). t.lease) h.session);
    mode = h.mode ∙ ap (λ (x : Bool). wanted x o.current.owner) (sym h.exclusive);
    exclusive = refl;
  };
}

-- The session after the event that a release sends.
pub transition-release_of :
    (s : Session) → Inv s → (transition s (release_of s.lease)).0.lease ≡ zero_lease
unfolding transition lease_valid
transition-release_of s v = ground (
  arith,
  lease_equal_iff s.lease s.lease,
  owner_eq_iff s.lease.owner MediaOwner.none,
  v.idle_clear,
  v.busy_leased,
)

-- No other event changes the lease.
pub transition-lease :
    (s : Session) (e : Event) → is_authority e.kind ≡ false → (transition s e).0.lease ≡ s.lease
unfolding transition is_authority
transition-lease s e h = ground arith

pub media_claimed-Shows :
    {m : ResourceMode} {x : Bool} (c : Coordinator) (l : Lease) (now : ℕ)
    → Shows c.snapshot.media_session m x c
    → Shows
        (transition c.snapshot.media_session (claim_of l)).0
        (wanted x l.owner)
        x
        (media_claimed c l now)
unfolding media_claimed set_active_media
media_claimed-Shows c l now v = apply_discovery_suspension-Shows _ true (some media_ownership) (
    set_desired_resource_mode-Shows _ (resource_mode_for_owner l.owner)
      (apply_media_event-Shows c (claim_of l) true now refl v))

pub media_released-Shows :
    {m : ResourceMode} {x : Bool} (c : Coordinator) (now : ℕ)
    → Shows c.snapshot.media_session m x c
    → Shows
        (transition c.snapshot.media_session (release_of c.snapshot.media_session.lease)).0
        home
        x
        (media_released c now)
unfolding media_released set_active_media
media_released-Shows {m} {x} c now v =
    subst
      (λ (h : ResourceMode).
        Shows (transition c.snapshot.media_session (release_of c.snapshot.media_session.lease)).0 h
          x (media_released c now))
      {x = if x then home else home} {y = home} (ground arith)
      (apply_discovery_suspension-Shows _ false (some media_ownership) (
        set_desired_resource_mode-Shows _ home
          (apply_media_event-Shows c (release_of c.snapshot.media_session.lease) true now refl v)))
