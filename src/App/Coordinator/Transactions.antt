-- ===== src/App/Coordinator/Transactions.antt =====
-- source/app/protocol_coordinator.c: the media transactions keep the coordinator and the ownership
-- module in step, and what a successful one gives.
use nx_cast.Base.{
  ℕ, ◌≡◌, ◌≢◌, ◌⊎◌, inl, inr, refl, sym, ap, ◌∙◌, subst, arith, Bool, true, false, not, ◌&&◌, ◌||◌,
  some, if◌then◌else◌, Bool-cases,
}
use nx_cast.Player.Ownership.{
  MediaOwner, owner_eq, Lease, Ownership, claim, validate, current_lease,
}
use nx_cast.Player.Ownership.Leases.{IsFenced, owner_eq_iff, claim-IsFenced, validate_iff}
use nx_cast.App.MediaSession.{Session, preparing, transition}
use nx_cast.App.MediaSession.Laws.{transition-Inv}
use nx_cast.App.MediaSession.Claims.{claim-applied}
use nx_cast.App.Coordinator.Data.{World}
use nx_cast.App.Coordinator.States.{accepts_media}
use nx_cast.App.Coordinator.Resources.{resource_mode_for_owner, owner_is_airplay}
use nx_cast.App.Coordinator.Media.{
  Transaction, zero_transaction, claim_of, media_claimed, excluded, claim_region,
  release_airplay_owner, media_begin,
}
use nx_cast.App.Coordinator.Shows.{Shows, mode_eq_iff}
use nx_cast.App.Coordinator.Synced.{IsSynced, wanted, shown-IsSynced, media_claimed-Shows}

-- A claim by a real owner.
claim-result :
    (o : Ownership) (owner : MediaOwner) (token : ℕ)
    → owner ≢ MediaOwner.none
    → let t = claim owner token true o in
      (t.ok ≡ true)
      × (t.lease.owner ≡ owner)
      × (t.lease.token ≡ token)
      × (t.after.current ≡ t.lease)
unfolding claim
claim-result o owner token real = ground (arith, owner_eq_iff owner MediaOwner.none)

-- A session that mirrors the ownership has no lease or the newest generation.
mirror-generation :
    (o : Ownership) (s : Session)
    → IsFenced o
    → s.lease ≡ o.current
    → (s.lease.generation ≡ 0) ⊎ (s.lease.generation ≡ o.next_generation)
mirror-generation o s f m = ground arith

-- What a claim that the coordinator let in leaves.
pub record Taken (owner : MediaOwner) (token : ℕ) (r : Transaction × World) : Type 0 where
  pub valid : validate (some r.0.lease) r.1.ownership ≡ true
  pub by : r.0.lease.owner ≡ owner
  pub tagged : r.0.lease.token ≡ token
  pub shown : r.1.coordinator.snapshot.active_media ≡ r.0.lease
  pub prepares : r.1.coordinator.snapshot.media_session.lifecycle ≡ preparing
  pub mode :
      r.1.coordinator.snapshot.desired_resource_mode
      ≡ wanted r.1.coordinator.exclusive_media_resources owner
  pub alone :
      r.1.coordinator.exclusive_media_resources ≡ true
      → (r.0.previous.owner ≡ MediaOwner.none)
        ⊎ (resource_mode_for_owner r.0.previous.owner ≡ resource_mode_for_owner owner)

not_excluded :
    (w : World) (owner : MediaOwner) (token : ℕ)
    → w.coordinator.exclusive_media_resources ≡ true
    → excluded w owner ≡ false
    → ((claim owner token true w.ownership).previous.owner ≡ MediaOwner.none)
      ⊎ (resource_mode_for_owner (claim owner token true w.ownership).previous.owner
          ≡ resource_mode_for_owner owner)
unfolding excluded current_lease claim
not_excluded w owner token e free = ground (
  arith,
  owner_eq_iff w.ownership.current.owner MediaOwner.none,
  owner_eq_iff owner MediaOwner.none,
  mode_eq_iff (resource_mode_for_owner w.ownership.current.owner) (resource_mode_for_owner owner),
)

module _ (w : World) (owner : MediaOwner) (token now : ℕ) (real : owner ≢ MediaOwner.none)
    (v : IsSynced w) where
  claimed_world : World
  claimed_world =
      let taken = claim owner token true w.ownership in
      record { ownership = taken.after; coordinator = media_claimed w.coordinator taken.lease now }

  claimed_transaction : Transaction
  claimed_transaction =
      let taken = claim owner token true w.ownership in
      record { active = true; lease = taken.lease; previous = taken.previous }

  claimed-Shows :
      Shows
        (transition w.coordinator.snapshot.media_session
          (claim_of (claim owner token true w.ownership).lease)).0
        (wanted w.coordinator.exclusive_media_resources
          (claim owner token true w.ownership).after.current.owner)
        w.coordinator.exclusive_media_resources
        (media_claimed w.coordinator (claim owner token true w.ownership).lease now)
  claimed-Shows =
      subst
        (λ (l : Lease).
          Shows
            (transition w.coordinator.snapshot.media_session
              (claim_of (claim owner token true w.ownership).lease)).0
            (wanted w.coordinator.exclusive_media_resources l.owner)
            w.coordinator.exclusive_media_resources
            (media_claimed w.coordinator (claim owner token true w.ownership).lease now))
        (sym (claim-result w.ownership owner token real).3)
        (media_claimed-Shows w.coordinator (claim owner token true w.ownership).lease now v.shows)

  claimed_world-IsSynced : IsSynced claimed_world
  unfolding claimed_world
  claimed_world-IsSynced =
      shown-IsSynced (claim owner token true w.ownership).after _ _
        w.coordinator.exclusive_media_resources (claim-IsFenced w.ownership owner token v.fenced)
        (transition-Inv w.coordinator.snapshot.media_session
          (claim_of (claim owner token true w.ownership).lease) v.inv)
        (claim-applied w.ownership w.coordinator.snapshot.media_session owner token v.fenced real
          (mirror-generation w.ownership w.coordinator.snapshot.media_session v.fenced v.mirror)).1
        claimed-Shows

  claimed_world-Taken :
      excluded w owner ≡ false → Taken owner token (claimed_transaction, claimed_world)
  unfolding claimed_world claimed_transaction
  claimed_world-Taken free =
      let result = claim-result w.ownership owner token real in
      let told =
        claim-applied w.ownership w.coordinator.snapshot.media_session owner token v.fenced real
          (mirror-generation w.ownership w.coordinator.snapshot.media_session v.fenced v.mirror) in
      record {
        valid =
            (validate_iff (claim owner token true w.ownership).after
                (claim owner token true w.ownership).lease
                (claim-IsFenced w.ownership owner token v.fenced)).1
              (sym result.3, λ e. real (sym result.1 ∙ e));
        by = result.1;
        tagged = result.2;
        shown = claimed-Shows.media ∙ told.1 ∙ result.3;
        prepares = ap (λ (s : Session). s.lifecycle) claimed-Shows.session ∙ told.2;
        mode =
            claimed-Shows.mode
            ∙ ap (λ (l : Lease). wanted w.coordinator.exclusive_media_resources l.owner) result.3
            ∙ ap (wanted w.coordinator.exclusive_media_resources) result.1
            ∙ ap (λ (x : Bool). wanted x owner) (sym claimed-Shows.exclusive);
        alone = λ e. not_excluded w owner token (sym claimed-Shows.exclusive ∙ e) free;
      }

-- What a begun transaction leaves: the player is taken, or nothing was and the transaction is empty.
pub data Begun (owner : MediaOwner) (token : ℕ) (r : Transaction × World) : Type 0 where
  refused : r.0 ≡ zero_transaction → IsSynced r.1 → Begun owner token r
  begun : r.0.active ≡ true → IsSynced r.1 → Taken owner token r → Begun owner token r

module _ (w : World) (owner : MediaOwner) (token now : ℕ) (real : owner ≢ MediaOwner.none)
    (v : IsSynced w) where
  claim_region-Begun : Begun owner token (claim_region w owner token now)
  unfolding claim_region claimed_world claimed_transaction
  claim_region-Begun = elim (Bool-cases (not (accepts_media w.coordinator) || excluded w owner)) [
    | inl e ↦
        subst (Begun owner token) {x = (zero_transaction, w)} {y = claim_region w owner token now}
          (ground arith) (refused refl v)
    | inr e ↦
        subst (Begun owner token)
          {x = (
            claimed_transaction w owner token now real v,
            claimed_world w owner token now real v,
          )}
          {y = claim_region w owner token now}
          (ground (arith, claim-result w.ownership owner token real))
          (begun refl (claimed_world-IsSynced w owner token now real v)
            (claimed_world-Taken w owner token now real v (ground arith)))
  ]

-- `release_airplay` stands for the callback of the AirPlay receiver, which calls `media_release`.
module _ (release_airplay : Lease → World → Bool × World)
    (keeps : (l : Lease) (u : World) → IsSynced u → IsSynced (release_airplay l u).1) where
  release_airplay_owner-IsSynced :
      (w : World) → IsSynced w → IsSynced (release_airplay_owner release_airplay w).1
  unfolding release_airplay_owner
  release_airplay_owner-IsSynced w v =
      elim (Bool-cases w.coordinator.operations.airplay_release_active_media) [
        | inl e ↦
            subst IsSynced {x = (release_airplay w.ownership.current w).1}
              {y = (release_airplay_owner release_airplay w).1} (rw e)
              (keeps w.ownership.current w v)
        | inr e ↦ subst IsSynced {x = w} {y = (release_airplay_owner release_airplay w).1} (rw e) v
      ]

  taken_over-Begun :
      (w : World) (owner : MediaOwner) (token now : ℕ)
      → owner ≢ MediaOwner.none
      → (freed : Bool × World) → IsSynced freed.1
      → Begun owner token
          (if freed.0 then claim_region freed.1 owner token now else (zero_transaction, freed.1))
  taken_over-Begun w owner token now real (true, u) v = claim_region-Begun u owner token now real v
  taken_over-Begun w owner token now real (false, u) v = refused refl v

  media_begin_real-Begun :
      (w : World) (owner : MediaOwner) (token now : ℕ)
      → owner_eq owner MediaOwner.none ≡ false
      → owner ≢ MediaOwner.none
      → IsSynced w
      → Begun owner token (media_begin release_airplay w owner token now)
  unfolding media_begin
  media_begin_real-Begun w owner token now n real v =
      elim (Bool-cases (accepts_media w.coordinator)) [
        | inr e ↦ rw n (rw e (refused refl v))
        | inl e ↦
            elim (Bool-cases (excluded w owner && owner_is_airplay w.ownership.current.owner)) [
              | inl f ↦ rw n (
                  rw e (
                    rw f (
                      taken_over-Begun w owner token now real
                        (release_airplay_owner release_airplay w)
                        (release_airplay_owner-IsSynced w v))))
              | inr f ↦ rw n (rw e (rw f (claim_region-Begun w owner token now real v)))
            ]
      ]

  -- From a world in which coordinator and ownership agree, `protocol_coordinator_media_begin` either is
  -- refused, or gives an active transaction whose lease validates, names the owner and token, is the
  -- media shown and has a session in preparation, with the wanted mode that of the owner when
  -- resources are exclusive, and then taken from nobody or from an owner of the same mode; in both
  -- cases the coordinator and the ownership agree afterwards, if the AirPlay callback keeps that.
  pub media_begin-Begun :
      (w : World) (owner : MediaOwner) (token now : ℕ)
      → IsSynced w
      → Begun owner token (media_begin release_airplay w owner token now)
  unfolding media_begin
  media_begin-Begun w owner token now v = elim (Bool-cases (owner_eq owner MediaOwner.none)) [
    | inl e ↦ rw e (refused refl v)
    | inr e ↦
        media_begin_real-Begun w owner token now e
          (λ n. ground (arith, owner_eq_iff owner MediaOwner.none)) v
  ]
