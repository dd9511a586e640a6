-- ===== src/App/MediaSession/Graph.antt =====
-- The lifecycle diagram of the session in source/app/protocol_media_session.c.
use nx_cast.Base.{◌≡◌, ◌≢◌, ◌⊎◌, refl, sym, subst, Bool, true, false, ◌||◌, List, [], ◌∷◌, arith}
use nx_cast.Player.Ownership.{MediaOwner}
use nx_cast.Player.Ownership.Leases.{owner_eq_iff, lease_equal_iff}
use nx_cast.App.MediaSession.{
  Lifecycle, idle, preparing, loading, stopping, EventKind, claimed, load_requested,
  control_attached, control_detached, stop_requested, ended, released, reset, Event, Session,
  Status, applied, lifecycle_eq, apply_claim, apply_reset, is_closing, finish, dispatch, addressed,
  route, transition,
}
use nx_cast.App.MediaSession.Laws.{Inv, lifecycle_eq_iff, lease_valid_iff, run}

-- The lifecycles that playback can leave.
pub data IsOpen : Lifecycle → Type 0 where
  before_load : IsOpen preparing
  at_load : IsOpen loading
  at_play : IsOpen Lifecycle.active

-- The arrows of the diagram, each with the event that it belongs to.
pub data Arrow : EventKind → Lifecycle → Lifecycle → Type 0 where
  claim : {l : Lifecycle} → Arrow claimed l preparing
  load : {l : Lifecycle} → IsOpen l → Arrow load_requested l loading
  begin : {l : Lifecycle} → IsOpen l → Arrow EventKind.active l Lifecycle.active
  play : {l : Lifecycle} → IsOpen l → Arrow EventKind.playing l Lifecycle.active
  pause : {l : Lifecycle} → IsOpen l → Arrow EventKind.paused l Lifecycle.active
  attach : {l : Lifecycle} → IsOpen l → Arrow control_attached l l
  detach : {l : Lifecycle} → IsOpen l → Arrow control_detached l l
  stop : {l : Lifecycle} → l ≢ idle → l ≢ stopping → Arrow stop_requested l stopping
  end : {l : Lifecycle} → l ≢ idle → l ≢ stopping → Arrow ended l stopping
  fail : {l : Lifecycle} → IsOpen l → Arrow EventKind.failed l Lifecycle.failed
  release : {l : Lifecycle} → l ≢ idle → Arrow released l idle
  clear : {l : Lifecycle} → l ≢ idle → Arrow reset l idle

-- An event other than a claim or a reset reaches no idle session.
addressed-busy :
    (e : Event) (s : Session) → Inv s → (addressed e s).1 ≡ applied → s.lifecycle ≢ idle
unfolding addressed
addressed-busy e s v h q =
    ground (arith, v.idle_clear q, lease_equal_iff s.lease e.lease, lease_valid_iff e.lease)

addressed-dispatch :
    (e : Event) (s : Session) → (addressed e s).1 ≡ applied → addressed e s ≡ dispatch e.kind s
unfolding addressed
addressed-dispatch e s h = ground arith

reset-busy : (s : Session) → Inv s → (apply_reset s).1 ≡ applied → s.lifecycle ≢ idle
unfolding apply_reset
reset-busy s v h q = ground (
  arith,
  v.idle_clear q,
  lifecycle_eq_iff s.lifecycle idle,
  owner_eq_iff s.lease.owner MediaOwner.none,
)

IsOpen-lifecycle :
    (l : Lifecycle)
    → l ≢ idle
    → lifecycle_eq l stopping || lifecycle_eq l Lifecycle.failed ≡ false
    → IsOpen l
unfolding lifecycle_eq
IsOpen-lifecycle idle n c = absurd (n refl)
IsOpen-lifecycle preparing n c = before_load
IsOpen-lifecycle loading n c = at_load
IsOpen-lifecycle Lifecycle.active n c = at_play
IsOpen-lifecycle stopping n c = cc
IsOpen-lifecycle Lifecycle.failed n c = cc

dispatch-Arrow :
    (k : EventKind) (s : Session)
    → s.lifecycle ≢ idle
    → (dispatch k s).1 ≡ applied
    → Arrow k s.lifecycle (dispatch k s).0.lifecycle
unfolding dispatch is_closing finish apply_reset
dispatch-Arrow claimed s n h = cc
dispatch-Arrow reset s n h = cc
dispatch-Arrow released s n h = ground (arith, release n)
dispatch-Arrow k s n h = grind (
  arith,
  IsOpen-lifecycle s.lifecycle n,
  lifecycle_eq_iff s.lifecycle stopping,
  load,
  begin,
  play,
  pause,
  attach,
  detach,
  stop,
  end,
  fail,
)

addressed-Arrow :
    (e : Event) (s : Session)
    → Inv s
    → (addressed e s).1 ≡ applied
    → Arrow e.kind s.lifecycle (addressed e s).0.lifecycle
addressed-Arrow e s v h =
    let same : addressed e s ≡ dispatch e.kind s = addressed-dispatch e s h in
    subst (λ (r : Session × Status). Arrow e.kind s.lifecycle r.0.lifecycle) (sym same)
      (dispatch-Arrow e.kind s (addressed-busy e s v h)
        (subst (λ (r : Session × Status). r.1 ≡ applied) same h))

-- Whatever the kind of the event is called.
route-Arrow :
    (k : EventKind) (e : Event) (s : Session)
    → e.kind ≡ k
    → Inv s
    → (route k e s).1 ≡ applied
    → Arrow k s.lifecycle (route k e s).0.lifecycle
unfolding route apply_claim apply_reset
route-Arrow claimed e s p v h = grind (arith, claim)
route-Arrow reset e s p v h =
    let busy : s.lifecycle ≢ idle = reset-busy s v h in grind (arith, clear busy)
route-Arrow k e s p v h =
    subst (λ (j : EventKind). Arrow j s.lifecycle (addressed e s).0.lifecycle) p
      (addressed-Arrow e s v h)

-- A well-formed session, idle ones included, follows the arrow of the event at every applied event: a
-- claim alone starts a session, over from any lifecycle; only preparing, loading and active sessions
-- load, play, pause, change control or fail; a stop or an end leaves any lifecycle but idle and stopping;
-- and a release or a reset alone makes a session idle, which it was not.
pub transition-Arrow :
    (s : Session) (e : Event)
    → Inv s
    → (transition s e).1 ≡ applied
    → Arrow e.kind s.lifecycle (transition s e).0.lifecycle
unfolding transition
transition-Arrow s e v h = route-Arrow e.kind e s refl v h

-- The events that do not begin a new session.
unfoldable pub continues : EventKind → Bool
continues claimed = false
continues released = false
continues reset = false
continues _ = true

-- A session that is stopping or failed.
abbrev pub IsClosing : Session → Type 0
IsClosing s = (s.lifecycle ≡ stopping) ⊎ (s.lifecycle ≡ Lifecycle.failed)

-- No event that continues the session brings it back to life or touches what it plays.
IsClosing-transition :
    (s : Session) (e : Event)
    → IsClosing s
    → continues e.kind ≡ true
    → let t = (transition s e).0 in
      IsClosing t × (t.lease ≡ s.lease) × (t.playback ≡ s.playback) × (t.control ≡ s.control)
unfolding transition continues
IsClosing-transition s e c h =
    ground
      (arith, lifecycle_eq_iff s.lifecycle stopping, lifecycle_eq_iff s.lifecycle Lifecycle.failed)

unfoldable pub all_continue : List Event → Bool
unfolding continues
all_continue [] = true
all_continue (e ∷ es) = elim (continues e.kind) [ true ↦ all_continue es | false ↦ false ]

-- Once a session is stopping or failed, no history of events without a claim, a release or a reset
-- brings it back to life, and its lease, playback and control stay as they were.
pub IsClosing-run :
    (s : Session) (es : List Event)
    → IsClosing s
    → all_continue es ≡ true
    → IsClosing (run s es)
      × ((run s es).lease ≡ s.lease)
      × ((run s es).playback ≡ s.playback)
      × ((run s es).control ≡ s.control)
unfolding run all_continue
IsClosing-run s [] c h = (c, refl, refl, refl)
IsClosing-run s (e ∷ es) c h =
    ground (arith, IsClosing-transition s e c, IsClosing-run (transition s e).0 es)
