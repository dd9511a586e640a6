-- ===== src/App/Coordinator/History.antt =====
-- source/app/protocol_coordinator.c: any history of the coordinator's calls, the resource worker, the
-- main loop's synchronisation and the player's observations included.
use nx_cast.Base.{ℕ, ◌≡◌, sym, subst, Bool, true, false, Option, some, List, [], ◌∷◌}
use nx_cast.Player.Ownership.{MediaOwner, Lease, zero_lease, current_lease}
use nx_cast.App.MediaSession.{Event, Session}
use nx_cast.App.Coordinator.Data.{
  ResourceMode, Config, Operations, PerService, AirplayStatus, Coordinator, World, Service,
  ServiceState, media_ownership, playback_activity,
}
use nx_cast.App.Coordinator.States.{
  start, set_service_state, begin_stop, finish_stop, apply_discovery_suspension,
}
use nx_cast.App.Coordinator.Resources.{
  set_desired_resource_mode, set_background, set_stop_required, Turn, continued, finished,
  turn_coordinator, stop_turn, start_turn, finish_worker, launch_resource_worker,
}
use nx_cast.App.Coordinator.Media.{
  Transaction, submit_event, media_begin, media_release, media_release_current, media_abort,
  sync_event, wanted_mode,
}
use nx_cast.App.Coordinator.Playback.{
  PlayerState, set_playback_active, observe_playback, observe_player_state, note_airplay,
}
use nx_cast.App.Coordinator.Stopping.{stop_runtime, reset_coordinator}
use nx_cast.App.Coordinator.Shows.{Shows, apply_discovery_suspension-Shows}
use nx_cast.App.Coordinator.Synced.{IsSynced, wanted, shown-IsSynced}
use nx_cast.App.Coordinator.Transactions.{Begun, refused, begun, media_begin-Begun}
use nx_cast.App.Coordinator.Releases.{
  media_release-IsSynced, media_abort-IsSynced, media_release_current-IsSynced,
  submit_event-IsSynced, set_service_state-IsSynced, begin_stop-IsSynced,
}
use nx_cast.App.Coordinator.Stopped.{
  finish_stop-IsSynced, stop_runtime-IsSynced, reset_coordinator-IsSynced, start-IsSynced,
  set_background-Shows,
}
use nx_cast.App.Coordinator.WorkerShows.{
  set_stop_required-Shows, stop_turn-Shows, start_turn-Shows, finish_worker-Shows,
  launch_resource_worker-Shows, note_airplay-Shows,
}
use nx_cast.App.Coordinator.Observed.{
  sync_event-IsSynced, sync_mode-IsSynced, observe_playback-IsSynced, observe_player_state-IsSynced,
}

-- The calls of the coordinator, and the regions of those that hold no lock over all of them: the main
-- loop's synchronisation, whose later regions use what its first one read of the ownership, its
-- poll of AirPlay, and the resource worker, which acts for one service at a time.
pub data Operation : Type 0 where
  starts : Config → Operations → (now : ℕ) → Operation
  begins : MediaOwner → (token now : ℕ) → Operation
  releases : Option Lease → (now : ℕ) → Operation
  releases_current : MediaOwner → (token now : ℕ) → Operation
  aborts : Transaction → (now : ℕ) → Operation
  submits : Event → (now : ℕ) → Operation
  sets_service : Service → ServiceState → (now : ℕ) → Operation
  requires_stop : Service → Bool → Operation
  syncs_session : (reading : Bool × Lease) → (now : ℕ) → Operation
  syncs_mode : (reading : Bool × Lease) → Operation
  syncs_discovery : (reading : Bool × Lease) → Operation
  polls_airplay : Option AirplayStatus → (now : ℕ) → Operation
  launches_worker : (now : ℕ) → (created : Bool) → Operation
  sets_background : (suspended answer : Bool) → Operation
  worker_stops : ResourceMode → Service → (now : ℕ) → Operation
  worker_starts : ResourceMode → Service → (now : ℕ) → PerService Bool → Operation
  worker_ends : ResourceMode → (now : ℕ) → (completed success : Bool) → Operation
  observes : PlayerState → (now : ℕ) → Operation
  observes_playback : (active terminal : Bool) → (now : ℕ) → Operation
  sets_playback : Bool → Operation
  begins_stop : Operation
  finishes_stop : (now : ℕ) → Operation
  stops : (now : ℕ) → Operation
  resets : (now : ℕ) → Operation

-- Where the other operations of a world go.
abbrev on_coordinator : World → Coordinator → World
on_coordinator w c = record w { coordinator = c }

abbrev ending : Bool → Bool → Coordinator → Turn
ending true success c = continued success c
ending false success c = finished success c

-- A start finds the player unowned, and a synchronisation acts on a reading that still holds.
abbrev pub Fits : World → Operation → Type 0
Fits w (starts config o now) = w.ownership.current ≡ zero_lease
Fits w (syncs_session reading now) = reading ≡ current_lease w.ownership
Fits w (syncs_mode reading) = reading ≡ current_lease w.ownership
Fits w o = Unit

Begun-IsSynced :
    (owner : MediaOwner) (token : ℕ) (r : Transaction × World) → Begun owner token r → IsSynced r.1
Begun-IsSynced owner token r (refused e v) = v
Begun-IsSynced owner token r (begun e v t) = v

-- What leaves alone all that the coordinator shows.
Shows-IsSynced :
    (w : World) (c : Coordinator)
    → IsSynced w
    → Shows w.coordinator.snapshot.media_session
        (wanted w.coordinator.exclusive_media_resources w.ownership.current.owner)
        w.coordinator.exclusive_media_resources
        c
    → IsSynced (on_coordinator w c)
Shows-IsSynced w c v h =
    shown-IsSynced w.ownership c w.coordinator.snapshot.media_session
      w.coordinator.exclusive_media_resources v.fenced v.inv v.mirror h

ending-Shows :
    {s : Session} {m : ResourceMode} {x : Bool} (c : Coordinator) (completed success : Bool)
    → Shows s m x c
    → Shows s m x (turn_coordinator (ending completed success c))
unfolding turn_coordinator
ending-Shows c true success v = v
ending-Shows c false success v = v

module _ (release_airplay : Lease → World → Bool × World) where
  unfoldable pub step : World → Operation → World
  step w (starts config o now) = on_coordinator w (start w.coordinator config o now).1
  step w (begins owner token now) = (media_begin release_airplay w owner token now).1
  step w (releases lease now) = (media_release w lease now).1
  step w (releases_current owner token now) = (media_release_current w owner token now).1
  step w (aborts t now) = (media_abort w t now).1
  step w (submits e now) = on_coordinator w (submit_event w.coordinator e now).0
  step w (sets_service k s now) = on_coordinator w (set_service_state w.coordinator k s now).1
  step w (requires_stop k b) = on_coordinator w (set_stop_required w.coordinator k b)
  step w (syncs_session reading now) = on_coordinator w (sync_event w.coordinator reading now)
  step w (syncs_mode reading) =
      on_coordinator w (set_desired_resource_mode w.coordinator (wanted_mode reading))
  step w (syncs_discovery reading) =
      on_coordinator w (apply_discovery_suspension w.coordinator reading.0 (some media_ownership))
  step w (polls_airplay answer now) = on_coordinator w (note_airplay w.coordinator answer now)
  step w (launches_worker now created) =
      on_coordinator w (launch_resource_worker w.coordinator now created).1
  step w (sets_background b answer) = on_coordinator w (set_background w.coordinator b answer).1
  step w (worker_stops target k now) =
      on_coordinator w (turn_coordinator (stop_turn target now k true w.coordinator))
  step w (worker_starts target k now answers) =
      on_coordinator w (turn_coordinator (start_turn target now answers k true w.coordinator))
  step w (worker_ends target now completed success) =
      on_coordinator w (finish_worker target now (ending completed success w.coordinator))
  step w (observes s now) = observe_player_state w s now
  step w (observes_playback active terminal now) = observe_playback w active terminal now
  step w (sets_playback active) = on_coordinator w (set_playback_active w.coordinator active)
  step w begins_stop = on_coordinator w (begin_stop w.coordinator).1
  step w (finishes_stop now) = finish_stop w now
  step w (stops now) = stop_runtime w now
  step w (resets now) = reset_coordinator w now

  unfoldable pub run : World → List Operation → World
  run w [] = w
  run w (o ∷ os) = run (step w o) os

  -- Each operation fits when its turn comes.
  abbrev pub AllFit : World → List Operation → Type 0
  AllFit w [] = Unit
  AllFit w (o ∷ os) = Fits w o × AllFit (step w o) os

  module _ (keeps : (l : Lease) (u : World) → IsSynced u → IsSynced (release_airplay l u).1) where
    step-IsSynced : (w : World) (o : Operation) → Fits w o → IsSynced w → IsSynced (step w o)
    unfolding step set_playback_active
    step-IsSynced w (starts config o now) z v = start-IsSynced w config o now z v
    step-IsSynced w (begins owner token now) _ v =
        Begun-IsSynced owner token _ (media_begin-Begun release_airplay keeps w owner token now v)
    step-IsSynced w (releases lease now) _ v = media_release-IsSynced w lease now v
    step-IsSynced w (releases_current owner token now) _ v =
        media_release_current-IsSynced w owner token now v
    step-IsSynced w (aborts t now) _ v = media_abort-IsSynced w t now v
    step-IsSynced w (submits e now) _ v = submit_event-IsSynced w e now v
    step-IsSynced w (sets_service k s now) _ v = set_service_state-IsSynced w k s now v
    step-IsSynced w (requires_stop k b) _ v =
        Shows-IsSynced w _ v (set_stop_required-Shows w.coordinator k b v.shows)
    step-IsSynced w (syncs_session reading now) e v =
        subst (λ (r : Bool × Lease). IsSynced (on_coordinator w (sync_event w.coordinator r now)))
          (sym e) (sync_event-IsSynced w now v)
    step-IsSynced w (syncs_mode reading) e v =
        subst
          (λ (r : Bool × Lease).
            IsSynced (on_coordinator w (set_desired_resource_mode w.coordinator (wanted_mode r))))
          (sym e) (sync_mode-IsSynced w v)
    step-IsSynced w (syncs_discovery reading) _ v =
        Shows-IsSynced w _ v
          (apply_discovery_suspension-Shows w.coordinator reading.0 (some media_ownership) v.shows)
    step-IsSynced w (polls_airplay answer now) _ v =
        Shows-IsSynced w _ v (note_airplay-Shows w.coordinator answer now v.shows)
    step-IsSynced w (launches_worker now created) _ v =
        Shows-IsSynced w _ v (launch_resource_worker-Shows w.coordinator now created v.shows)
    step-IsSynced w (sets_background b answer) _ v =
        Shows-IsSynced w _ v (set_background-Shows w.coordinator b answer v.shows)
    step-IsSynced w (worker_stops target k now) _ v =
        Shows-IsSynced w _ v (stop_turn-Shows target now k true w.coordinator v.shows)
    step-IsSynced w (worker_starts target k now answers) _ v =
        Shows-IsSynced w _ v (start_turn-Shows target now answers k true w.coordinator v.shows)
    step-IsSynced w (worker_ends target now completed success) _ v = Shows-IsSynced w _ v (
        finish_worker-Shows target now (ending completed success w.coordinator)
          (ending-Shows w.coordinator completed success v.shows))
    step-IsSynced w (observes s now) _ v = observe_player_state-IsSynced w s now v
    step-IsSynced w (observes_playback active terminal now) _ v =
        observe_playback-IsSynced w active terminal now v
    step-IsSynced w (sets_playback active) _ v =
        Shows-IsSynced w _ v
          (apply_discovery_suspension-Shows w.coordinator active (some playback_activity) v.shows)
    step-IsSynced w begins_stop _ v = begin_stop-IsSynced w v
    step-IsSynced w (finishes_stop now) _ v = finish_stop-IsSynced w now v
    step-IsSynced w (stops now) _ v = stop_runtime-IsSynced w now v
    step-IsSynced w (resets now) _ v = reset_coordinator-IsSynced w now v

    -- Along any history of the operations above that starts in agreement, where no operation comes between
    -- the regions of another, a start finds the player unowned, a synchronisation's reading of the
    -- ownership still holds when it acts on it, and the AirPlay callback keeps the agreement: the
    -- media session carries the lease that the ownership module holds, the media shown is that lease, and
    -- the wanted resource mode is that of its owner, or home where resources are not exclusive or
    -- nobody owns the player.
    pub run-IsSynced :
        (w : World) (os : List Operation) → AllFit w os → IsSynced w → IsSynced (run w os)
    unfolding run
    run-IsSynced w [] _ v = v
    run-IsSynced w (o ∷ os) (f, fs) v = run-IsSynced (step w o) os fs (step-IsSynced w o f v)
