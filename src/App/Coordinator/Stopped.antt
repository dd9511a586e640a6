-- ===== src/App/Coordinator/Stopped.antt =====
-- source/app/protocol_coordinator.c: a start, a stop and a reset keep the coordinator and the ownership
-- module in step.
use nx_cast.Base.{
  ℕ, ◌≡◌, inl, inr, refl, sym, ◌∙◌, subst, if◌then◌else◌, arith, Bool, true, false, none,
  Bool-cases,
}
use nx_cast.Player.Ownership.{zero_lease, reset}
use nx_cast.Player.Ownership.Leases.{reset-IsFenced, current-reset}
use nx_cast.App.MediaSession
use nx_cast.App.MediaSession.{Session}
use nx_cast.App.MediaSession.Laws.{initial-Inv}
use nx_cast.App.Coordinator.Data.{
  ResourceMode, home, Lifecycle, Service, iptv, dlna, airplay, ServiceState, Callback, Config,
  Operations, Coordinator, World, lifecycle_eq, stop_call,
}
use nx_cast.App.Coordinator.States.{
  called, begin_stop, finish_stop, stopped_region, reset_all, apply_discovery_suspension,
  recompute_state, begun, begin_start, assign_start, start, operations_valid,
}
use nx_cast.App.Coordinator.Resources.{set_background}
use nx_cast.App.Coordinator.Stopping.{
  request_stops, join_workers, stop_running, stop_services, cleared, clear_after_stop, stop_runtime,
  reset_coordinator,
}
use nx_cast.App.Coordinator.Shows.{Shows, recompute_state-Shows, set_service_state-Shows}
use nx_cast.App.Coordinator.Synced.{IsSynced, wanted, shown-IsSynced}
use nx_cast.App.Coordinator.Releases.{unowned_mode, begin_stop-IsSynced}

stopped_region-Shows :
    (c : Coordinator) (now : ℕ)
    → Shows MediaSession.initial home c.exclusive_media_resources (stopped_region c now)
unfolding stopped_region recompute_state lifecycle_eq
stopped_region-Shows c now = record { session = refl; media = refl; mode = refl; exclusive = refl }

pub finish_stop-IsSynced : (w : World) (now : ℕ) → IsSynced w → IsSynced (finish_stop w now)
unfolding finish_stop
finish_stop-IsSynced w now v =
    let c = apply_discovery_suspension w.coordinator false none in
    shown-IsSynced (reset w.ownership) (stopped_region c now) MediaSession.initial
      c.exclusive_media_resources (reset-IsFenced w.ownership v.fenced) initial-Inv
      (sym (current-reset w.ownership))
      (subst
        (λ (m : ResourceMode).
          Shows MediaSession.initial m c.exclusive_media_resources (stopped_region c now))
        (unowned_mode c.exclusive_media_resources (reset w.ownership) (current-reset w.ownership))
        (stopped_region-Shows c now))

reset_all-IsSynced : (w : World) → IsSynced w → IsSynced (reset_all w)
unfolding reset_all
reset_all-IsSynced w v =
    shown-IsSynced (reset w.ownership) _ MediaSession.initial false
      (reset-IsFenced w.ownership v.fenced) initial-Inv (sym (current-reset w.ownership))
      (record { session = refl; media = refl; mode = refl; exclusive = refl })

module _ {s : Session} {m : ResourceMode} {x : Bool} (c : Coordinator) where
  pub called-Shows : (b : Bool) (k : Callback) → Shows s m x c → Shows s m x (called c b k)
  called-Shows b k v = ground arith

  pub set_background-Shows :
      (b answer : Bool) → Shows s m x c → Shows s m x (set_background c b answer).1
  unfolding set_background
  set_background-Shows b answer v = ground arith

  join_workers-Shows : Shows s m x c → Shows s m x (join_workers c)
  unfolding join_workers
  join_workers-Shows v = record {
    session = v.session;
    media = v.media;
    mode = v.mode;
    exclusive = v.exclusive;
  }

  cleared-Shows : Shows s m x c → Shows s m false (cleared c)
  unfolding cleared
  cleared-Shows v = record { session = v.session; media = v.media; mode = v.mode; exclusive = refl }

  request_stops-Shows : Shows s m x c → Shows s m x (request_stops c)
  unfolding request_stops
  request_stops-Shows v = ground arith

  stop_running-Shows : (k : Service) (now : ℕ) → Shows s m x c → Shows s m x (stop_running c k now)
  unfolding stop_running
  stop_running-Shows k now v = ground (
    arith,
    set_service_state-Shows (called c true (stop_call k)) k ServiceState.stopped now
        (called-Shows true (stop_call k) v),
  )

stop_services-IsSynced :
    (w : World) (now : ℕ)
    → IsSynced w
    → IsSynced (record w { coordinator = stop_services w.coordinator now })
unfolding stop_services
stop_services-IsSynced w now v =
    shown-IsSynced w.ownership _ w.coordinator.snapshot.media_session
      w.coordinator.exclusive_media_resources v.fenced v.inv v.mirror
      (stop_running-Shows _ iptv now (
        stop_running-Shows _ dlna now (
          stop_running-Shows _ airplay now (join_workers-Shows _ (request_stops-Shows _ v.shows)))))

-- The player is unowned after `protocol_coordinator_finish_stop`.
clear_after_stop-IsSynced :
    (w : World) (now : ℕ) → IsSynced w → IsSynced (clear_after_stop (finish_stop w now))
unfolding clear_after_stop finish_stop
clear_after_stop-IsSynced w now v =
    shown-IsSynced (reset w.ownership) _ MediaSession.initial false
      (reset-IsFenced w.ownership v.fenced) initial-Inv (sym (current-reset w.ownership))
      (cleared-Shows _ (set_background-Shows _ false true (stopped_region-Shows _ now)))

pub stop_runtime-IsSynced : (w : World) (now : ℕ) → IsSynced w → IsSynced (stop_runtime w now)
unfolding stop_runtime
stop_runtime-IsSynced w now v = elim (Bool-cases (begin_stop w.coordinator).0) [
  | inl e ↦ rw e (
      clear_after_stop-IsSynced _ now (
        stop_services-IsSynced (record w { coordinator = (begin_stop w.coordinator).1 }) now
          (begin_stop-IsSynced w v)))
  | inr e ↦ rw e v
]

stopped_if-IsSynced :
    (active : Bool) (w : World) (now : ℕ)
    → IsSynced w
    → IsSynced (if active then stop_runtime w now else w)
stopped_if-IsSynced true w now v = stop_runtime-IsSynced w now v
stopped_if-IsSynced false w now v = v

pub reset_coordinator-IsSynced :
    (w : World) (now : ℕ) → IsSynced w → IsSynced (reset_coordinator w now)
unfolding reset_coordinator
reset_coordinator-IsSynced w now v =
    reset_all-IsSynced _ (stopped_if-IsSynced w.coordinator.runtime_active w now v)

begun-Shows :
    (c : Coordinator) (config : Config) (now : ℕ)
    → Shows MediaSession.initial home config.exclusive_media_resources (begun c config now)
unfolding begun
begun-Shows c config now =
    let v =
      recompute_state-Shows {s = MediaSession.initial} {m = home}
        {e = config.exclusive_media_resources} _
        (record { session = refl; media = refl; mode = refl; exclusive = refl }) in
    record { session = v.session; media = v.media; mode = v.mode; exclusive = v.exclusive }

assign_start-Shows :
    (w : World) (config : Config) (o : Operations) (now : ℕ)
    → w.ownership.current ≡ zero_lease
    → Shows MediaSession.initial
        (wanted config.exclusive_media_resources w.ownership.current.owner)
        config.exclusive_media_resources
        (assign_start w.coordinator config o now)
unfolding assign_start
assign_start-Shows w config o now z =
    let v = begun-Shows w.coordinator config now in
    record {
      session = v.session;
      media = v.media;
      mode = v.mode ∙ unowned_mode config.exclusive_media_resources w.ownership z;
      exclusive = refl;
    }

-- A start on an unowned player.
pub start-IsSynced :
    (w : World) (config : Config) (o : Operations) (now : ℕ)
    → w.ownership.current ≡ zero_lease
    → IsSynced w
    → IsSynced (record w { coordinator = (start w.coordinator config o now).1 })
unfolding start begin_start
start-IsSynced w config o now z v = elim (Bool-cases (operations_valid config o)) [
  | inr e ↦ rw e v
  | inl e ↦ elim (Bool-cases (lifecycle_eq w.coordinator.lifecycle Lifecycle.stopped)) [
    | inr f ↦ rw (e, f) v
    | inl f ↦
        rw (e, f)
          (shown-IsSynced w.ownership _ MediaSession.initial config.exclusive_media_resources
            v.fenced initial-Inv (sym z) (assign_start-Shows w config o now z))
  ]
]
