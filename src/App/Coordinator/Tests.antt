-- ===== src/App/Coordinator/Tests.antt =====
-- A coordinator at work, and the theorems about it at concrete inputs.
use nx_cast.Base.{ℕ, ◌≡◌, inl, refl, arith, Bool, true, false, not, some, List, [], ◌∷◌}
use nx_cast.Player.Ownership
use nx_cast.Player.Ownership.{MediaOwner, Lease, zero_lease, Ownership, owner_eq}
use nx_cast.App.MediaSession
use nx_cast.App.MediaSession.{EventKind, Event, Session, Lifecycle}
use nx_cast.App.MediaSession.Laws.{Inv, initial-Inv}
use nx_cast.App.Coordinator.Data
use nx_cast.App.Coordinator.Data.{
  Service, iptv, dlna, airplay, ServiceState, home, dlna_exclusive, airplay_exclusive, PerService,
  at, each, service_state_eq, mode_eq, lifecycle_eq, Snapshot, Coordinator, World, Operations,
}
use nx_cast.App.Coordinator.Resources.{
  Others, Answers, transition_allowed, target_current, services_match, worker_run,
  resource_mode_for_owner,
}
use nx_cast.App.Coordinator.Media.{media_begin, media_release, sync_active_media}
use nx_cast.App.Coordinator.Playback.{PlayerState, set_playback_active}
use nx_cast.App.Coordinator.States.{apply_discovery_suspension, suspend_discovery}
use nx_cast.App.Coordinator.Steady.{Leaves}
use nx_cast.App.Coordinator.Synced.{IsSynced}
use nx_cast.App.Coordinator.Transactions.{Begun, media_begin-Begun}
use nx_cast.App.Coordinator.Releases.{Freed, media_release-Freed, media_release-IsSynced}
use nx_cast.App.Coordinator.History.{
  Operation, begins, observes, syncs_session, syncs_mode, launches_worker, worker_stops,
  worker_ends, releases_current, step, AllFit, run, run-IsSynced,
}
use nx_cast.App.Coordinator.Healing.{sync_active_media_heals}
use nx_cast.App.Coordinator.Convergence.{worker_run_converges}

-- Running with exclusive resources; DLNA and AirPlay run, IPTV does not take part.
abbrev serving : Coordinator
serving = record Data.initial {
  lifecycle = Data.Lifecycle.running;
  runtime_active = true;
  exclusive_media_resources = true;
  configured_enabled = record { of_iptv = false; of_dlna = true; of_airplay = true };
  snapshot = record (Data.zero_snapshot 4) {
    services = record {
      of_iptv = ServiceState.disabled;
      of_dlna = ServiceState.running;
      of_airplay = ServiceState.running;
    };
  };
}

abbrev idle_world : World
idle_world = record { ownership = Ownership.initial; coordinator = serving }

idle_world-IsSynced : IsSynced idle_world
unfolding owner_eq resource_mode_for_owner
idle_world-IsSynced = record {
  fenced = ground arith;
  inv = initial-Inv;
  mirror = refl;
  shows = record { session = refl; media = refl; mode = refl; exclusive = refl };
}

-- An AirPlay receiver that gives the player up at once.
abbrev gives_up : Lease → World → Bool × World
gives_up l w = media_release w (some l) 6

gives_up-IsSynced : (l : Lease) (u : World) → IsSynced u → IsSynced (gives_up l u).1
gives_up-IsSynced l u v = media_release-IsSynced u (some l) 6 v

media_begin-Begun_example :
    Begun MediaOwner.dlna 11 (media_begin gives_up idle_world MediaOwner.dlna 11 7)
media_begin-Begun_example =
    media_begin-Begun gives_up gives_up-IsSynced idle_world MediaOwner.dlna 11 7 idle_world-IsSynced

abbrev evening : List Operation
evening =
    syncs_session (false, zero_lease) 90
    ∷ syncs_mode (false, zero_lease)
    ∷ begins MediaOwner.airplay_video 5 100
    ∷ observes PlayerState.playing 120
    ∷ launches_worker 125 true
    ∷ worker_stops airplay_exclusive dlna 130
    ∷ worker_ends airplay_exclusive 140 true true
    ∷ begins MediaOwner.dlna 6 200
    ∷ releases_current MediaOwner.dlna 6 300
    ∷ []

evening-AllFit : AllFit gives_up idle_world evening
unfolding step Ownership.current_lease owner_eq
evening-AllFit = (refl, (refl, (tt, (tt, (tt, (tt, (tt, (tt, (tt, tt)))))))))

run-IsSynced_example : IsSynced (run gives_up idle_world evening)
run-IsSynced_example =
    run-IsSynced gives_up gives_up-IsSynced idle_world evening evening-AllFit idle_world-IsSynced

media_release-Freed_example :
    Freed zero_lease idle_world (media_release idle_world (some zero_lease) 9)
media_release-Freed_example = media_release-Freed idle_world zero_lease 9 idle_world-IsSynced

-- A session whose lease was released while the synchronisation was on its way.
abbrev gone : Lease
gone = record { owner = MediaOwner.dlna; token = 3; generation = 1 }

abbrev stale_session : Session
stale_session = record MediaSession.initial { lease = gone; lifecycle = Lifecycle.active }

abbrev stale_world : World
stale_world = record idle_world {
  coordinator = record serving {
    snapshot = record (serving.snapshot) { media_session = stale_session; active_media = gone };
  };
}

stale_session-Inv : Inv stale_session
unfolding MediaSession.lease_valid owner_eq
stale_session-Inv = ground arith

sync_active_media_heals_example : IsSynced (record stale_world {
  coordinator =
      sync_active_media stale_world.coordinator (Ownership.current_lease stale_world.ownership) 50;
})
sync_active_media_heals_example =
    sync_active_media_heals stale_world 50 idle_world-IsSynced.fenced stale_session-Inv refl
      (inl refl)

-- The worker is to leave AirPlay and keep DLNA.
abbrev moving : Coordinator
moving = record serving {
  resource_worker = record Data.zero_resource_worker { target = dlna_exclusive };
  snapshot = record (serving.snapshot) {
    desired_resource_mode = dlna_exclusive;
    resource_transition_active = true;
  };
}

abbrev willing : Answers
willing = record { suspend = true; starts = each true; resume = true }

all_start : (k : Service) → at willing.starts k ≡ true
all_start iptv = refl
all_start dlna = refl
all_start airplay = refl

moving-IsConfigured :
    (k : Service)
    → service_state_eq (at moving.snapshot.services k) ServiceState.disabled
      ≡ not (at moving.configured_enabled k)
unfolding service_state_eq
moving-IsConfigured iptv = refl
moving-IsConfigured dlna = refl
moving-IsConfigured airplay = refl

-- Meanwhile the player starts to play, and the main loop notices.
abbrev noticing : Others
noticing n c = set_playback_active c true

noticing-Leaves : (n : ℕ) (c : Coordinator) → Leaves c (noticing n c)
unfolding set_playback_active apply_discovery_suspension suspend_discovery
noticing-Leaves n c = ground arith

worker_run_converges_example :
    services_match (worker_run noticing moving 40 willing) dlna_exclusive ≡ true
unfolding transition_allowed target_current lifecycle_eq mode_eq
worker_run_converges_example =
    (worker_run_converges noticing noticing-Leaves moving 40 willing refl refl moving-IsConfigured
      refl all_start refl).0
