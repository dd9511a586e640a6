-- ===== src/App/MediaSession/Tests.antt =====
-- Runs of the media session, and the theorems about it at concrete inputs.
use nx_cast.Base.{true, ◌≡◌, ◌≢◌, ◌⊎◌, refl, inl, inr, List, [], ◌∷◌, arith}
use nx_cast.Player.Ownership.{dlna, iptv, Lease, claim, lease_equal, owner_eq}
use nx_cast.Player.Ownership
use nx_cast.Player.Ownership.Leases
use nx_cast.App.MediaSession.{
  Lifecycle, stopping, Playback, Control, EventKind, load_requested, stop_requested, Event, Session,
  applied, stale, initial, lifecycle_eq, lease_valid, generation_newer, bump_revision, transition,
}
use nx_cast.App.MediaSession.Laws.{Inv, transition-revision, transition-Inv, run}
use nx_cast.App.MediaSession.Graph.{Arrow, transition-Arrow, all_continue, IsClosing-run}
use nx_cast.App.MediaSession.Claims.{claim_event, claim-applied, claims_commute}

abbrev first_lease : Lease
first_lease = record { owner = dlna; token = 5; generation = 4294967295 }

abbrev second_lease : Lease
second_lease = record { owner = iptv; token = 6; generation = 1 }

abbrev event : EventKind → Event
event k = record { kind = k; lease = first_lease }

abbrev playing : Session
playing = record {
  lease = first_lease;
  lifecycle = Lifecycle.active;
  playback = Playback.playing;
  control = Control.attached;
  revision = 4294967295;
}

abbrev stopped : Session
stopped = record playing { lifecycle = stopping }

playing-Inv : Inv playing
unfolding owner_eq lease_valid
playing-Inv = record {
  idle_clear = λ e. cc;
  busy_leased = λ _. refl;
  early_unknown = λ e. ground arith;
}

transition-revision_example :
    let r = transition playing (event stop_requested) in
    ((r.1 ≡ applied)
      × (r.0.revision ≡ bump_revision playing.revision)
      × (r.0.revision ≢ playing.revision)
      × (r.0.revision ≢ 0))
    ⊎ ((r.1 ≢ applied) × (r.0 ≡ playing))
transition-revision_example = transition-revision playing (event stop_requested) (omega arith)

transition-Inv_example : Inv (transition playing (event load_requested)).0
transition-Inv_example = transition-Inv playing (event load_requested) playing-Inv

transition-Arrow_example :
    Arrow stop_requested Lifecycle.active (transition playing (event stop_requested)).0.lifecycle
unfolding transition lease_valid lease_equal owner_eq lifecycle_eq
transition-Arrow_example = transition-Arrow playing (event stop_requested) playing-Inv refl

abbrev late_events : List Event
late_events = event EventKind.playing ∷ event load_requested ∷ event EventKind.active ∷ []

IsClosing-run_example : (run stopped late_events).playback ≡ Playback.playing
unfolding all_continue
IsClosing-run_example = (IsClosing-run stopped late_events (inl refl) refl).2

abbrev owned : Ownership.Ownership
owned = record { current = first_lease; next_generation = 4294967295 }

owned-IsFenced : Leases.IsFenced owned
owned-IsFenced = ground arith

claim-applied_example :
    (transition playing (claim_event (claim iptv 6 true owned).lease)).1 ≡ applied
claim-applied_example = (claim-applied owned playing iptv 6 owned-IsFenced (λ e. cc) (inr refl)).0

claims_commute_example :
    (transition (transition initial (claim_event second_lease)).0 (claim_event first_lease)).1
    ≡ stale
unfolding lease_valid owner_eq generation_newer
claims_commute_example =
    (claims_commute initial first_lease second_lease (omega arith) (omega arith) (omega arith) refl
      refl refl (inl refl)).1
