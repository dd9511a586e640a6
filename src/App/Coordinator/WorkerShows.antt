-- ===== src/App/Coordinator/WorkerShows.antt =====
-- source/app/protocol_coordinator.c: the resource worker and the AirPlay status leave alone the media
-- session, the media shown and the wanted mode.
use nx_cast.Base.{ℕ, arith, Bool, true, false, Option, some, none}
use nx_cast.App.MediaSession.{Session}
use nx_cast.App.Coordinator.Data.{
  Service, iptv, dlna, airplay, ServiceState, ResourceMode, PerService, at, AirplayStatus,
  Coordinator, start_call,
}
use nx_cast.App.Coordinator.Resources.{
  set_start_call, clear_airplay_status, clear_if_airplay, set_stop_required, stop_calls,
  stop_service, started_state, start_region, cleaned, start_service, Turn, continued, finished,
  turn_coordinator, stop_turn, start_turn, finish_worker, prepared, launch_failed,
  launch_resource_worker,
}
use nx_cast.App.Coordinator.Playback.{polled_state, status_noted, note_airplay}
use nx_cast.App.Coordinator.Shows.{Shows, set_service_state-Shows}
use nx_cast.App.Coordinator.Stopped.{called-Shows}

module _ {s : Session} {m : ResourceMode} {x : Bool} (c : Coordinator) where
  clear_if_airplay-Shows : (k : Service) → Shows s m x c → Shows s m x (clear_if_airplay k c)
  unfolding clear_airplay_status
  clear_if_airplay-Shows iptv v = v
  clear_if_airplay-Shows dlna v = v
  clear_if_airplay-Shows airplay v = ground arith

  pub set_stop_required-Shows :
      (k : Service) (b : Bool) → Shows s m x c → Shows s m x (set_stop_required c k b)
  set_stop_required-Shows k b v = record {
    session = v.session;
    media = v.media;
    mode = v.mode;
    exclusive = v.exclusive;
  }

  set_start_call-Shows :
      (k : Option Service) (b : Bool) → Shows s m x c → Shows s m x (set_start_call c k b)
  set_start_call-Shows k b v = record {
    session = v.session;
    media = v.media;
    mode = v.mode;
    exclusive = v.exclusive;
  }

module _ {s : Session} {m : ResourceMode} {x : Bool} where
  stop_service-Shows :
      (c : Coordinator) (k : Service) (now : ℕ) → Shows s m x c → Shows s m x (stop_service c k now)
  unfolding stop_service stop_calls
  stop_service-Shows c k now v = clear_if_airplay-Shows _ k (
      set_service_state-Shows _ k ServiceState.stopped now
        (set_stop_required-Shows _ k false (called-Shows _ _ _ (called-Shows c _ _ v))))

  cleaned-Shows :
      (c : Coordinator) (k : Service) (now : ℕ) → Shows s m x c → Shows s m x (cleaned c k now)
  cleaned-Shows c k now v = ground (arith, stop_service-Shows c k now v)

  start_region-Shows :
      (c : Coordinator) (k : Service) (now : ℕ) (b : Bool)
      → Shows s m x c
      → Shows s m x (start_region c k now b)
  unfolding start_region
  start_region-Shows c k now b v = set_service_state-Shows _ k (started_state b) now (
      set_stop_required-Shows _ k _ (
        called-Shows _ true (start_call k)
          (set_service_state-Shows c k ServiceState.starting now v)))

  start_service-Shows :
      (c : Coordinator) (k : Service) (now : ℕ) (b : Bool)
      → Shows s m x c
      → Shows s m x (start_service c k now b).1
  unfolding start_service
  start_service-Shows c k now b v =
      let w = cleaned-Shows c k now v in
      ground (arith, w, start_region-Shows (cleaned c k now) k now b w)

  pub stop_turn-Shows :
      (t : ResourceMode) (now : ℕ) (k : Service) (b : Bool) (c : Coordinator)
      → Shows s m x c
      → Shows s m x (turn_coordinator (stop_turn t now k b c))
  unfolding stop_turn turn_coordinator
  stop_turn-Shows t now k b c v = ground (arith, stop_service-Shows c k now v)

  pub start_turn-Shows :
      (t : ResourceMode) (now : ℕ) (answers : PerService Bool) (k : Service) (b : Bool)
      (c : Coordinator)
      → Shows s m x c
      → Shows s m x (turn_coordinator (start_turn t now answers k b c))
  unfolding start_turn turn_coordinator
  start_turn-Shows t now answers k b c v =
      let w =
        start_service-Shows (set_start_call c (some k) true) k now (at answers k)
          (set_start_call-Shows c (some k) true v) in
      ground (arith, set_start_call-Shows _ none false w)

  pub finish_worker-Shows :
      (t : ResourceMode) (now : ℕ) (turn : Turn)
      → Shows s m x (turn_coordinator turn)
      → Shows s m x (finish_worker t now turn)
  unfolding finish_worker turn_coordinator
  finish_worker-Shows t now (continued true c) v = ground arith
  finish_worker-Shows t now (continued false c) v = ground arith
  finish_worker-Shows t now (finished b c) v = ground arith

  pub launch_resource_worker-Shows :
      (c : Coordinator) (now : ℕ) (created : Bool)
      → Shows s m x c
      → Shows s m x (launch_resource_worker c now created).1
  unfolding launch_resource_worker prepared launch_failed
  launch_resource_worker-Shows c now created v = ground arith

  status_noted-Shows :
      (c : Coordinator) (a : AirplayStatus) → Shows s m x c → Shows s m x (status_noted c a)
  status_noted-Shows c a v = ground arith

  pub note_airplay-Shows :
      (c : Coordinator) (a : Option AirplayStatus) (now : ℕ)
      → Shows s m x c
      → Shows s m x (note_airplay c a now)
  unfolding note_airplay
  note_airplay-Shows c none now v = v
  note_airplay-Shows c (some a) now v = ground (
    arith,
    set_service_state-Shows (status_noted c a) airplay (polled_state a) now
        (status_noted-Shows c a v),
  )
