-- ===== src/App/Coordinator/Shows.antt =====
-- source/app/protocol_coordinator.c: what each region leaves of the media session, the media shown and
-- the wanted mode.
use nx_cast.Base.{
  ℕ, ◌≡◌, ◌≢◌, inl, inr, refl, ap, subst, arith, Bool, true, false, not, ◌||◌, Option, some, none,
  if◌then◌else◌, Bool-cases,
}
use nx_cast.App.MediaSession.{Event, Session, Status, applied, transition}
use nx_cast.App.MediaSession.Laws.{transition-same}
use nx_cast.App.Coordinator.Data.{
  Service, ServiceState, ResourceMode, home, SuspensionPolicy, mode_eq, Coordinator,
}
use nx_cast.App.Coordinator.States.{
  recompute_state, set_service_state, state_changed, suspend_discovery, apply_discovery_suspension,
  discovery_target,
}
use nx_cast.App.Coordinator.Resources.{
  stop_requested, desire, set_desired_resource_mode, mode_target,
}
use nx_cast.App.Coordinator.Media.{
  session_applied, after_transition, is_authority, apply_media_event,
}

-- The coordinator shows the session, and wants the mode.
pub record Shows (s : Session) (m : ResourceMode) (e : Bool) (c : Coordinator) : Type 0 where
  pub session : c.snapshot.media_session ≡ s
  pub media : c.snapshot.active_media ≡ s.lease
  pub mode : c.snapshot.desired_resource_mode ≡ m
  pub exclusive : c.exclusive_media_resources ≡ e

pub mode_eq_iff : (a b : ResourceMode) → (mode_eq a b ≡ true → a ≡ b) × (a ≡ b → mode_eq a b ≡ true)
unfolding mode_eq
mode_eq_iff a b = ground arith

module _ {s : Session} {m : ResourceMode} {e : Bool} (c : Coordinator) where
  pub recompute_state-Shows : Shows s m e c → Shows s m e (recompute_state c)
  unfolding recompute_state
  recompute_state-Shows v = ground arith

  pub suspend_discovery-Shows :
      (target : Bool) → Shows s m e c → Shows s m e (suspend_discovery c target)
  unfolding suspend_discovery
  suspend_discovery-Shows target v = ground arith

  pub apply_discovery_suspension-Shows :
      (suspended : Bool) (p : Option SuspensionPolicy)
      → Shows s m e c
      → Shows s m e (apply_discovery_suspension c suspended p)
  unfolding apply_discovery_suspension
  apply_discovery_suspension-Shows suspended none v =
      suspend_discovery-Shows (discovery_target c suspended) v
  apply_discovery_suspension-Shows suspended (some p) v =
      ground (arith, suspend_discovery-Shows (discovery_target c suspended) v)

  pub session_applied-Shows :
      (t : Session) (now : ℕ) → Shows s m e c → Shows t m e (session_applied c t now)
  unfolding session_applied recompute_state
  session_applied-Shows t now v = ground arith

  stop_requested-Shows :
      (target : ResourceMode) (k : Option Service)
      → Shows s m e c
      → Shows s m e (stop_requested c target k)
  unfolding stop_requested
  stop_requested-Shows target none v = v
  stop_requested-Shows target (some k) v = ground arith

  pub set_service_state-Shows :
      (k : Service) (state : ServiceState) (now : ℕ)
      → Shows s m e c
      → Shows s m e (set_service_state c k state now).1
  unfolding set_service_state state_changed recompute_state
  set_service_state-Shows k state now v = ground arith

desire-Shows :
    {s : Session} {m : ResourceMode} {e : Bool} (c : Coordinator) (target : ResourceMode)
    → Shows s m e c
    → Shows s target e (desire c target)
unfolding desire
desire-Shows c target v = record {
  session = v.session;
  media = v.media;
  mode = refl;
  exclusive = v.exclusive;
}

pub set_desired_resource_mode-Shows :
    {s : Session} {m : ResourceMode} {e : Bool} (c : Coordinator) (mode : ResourceMode)
    → Shows s m e c
    → Shows s (if e then mode else home) e (set_desired_resource_mode c mode)
unfolding set_desired_resource_mode
set_desired_resource_mode-Shows {s} {m} {e} c mode v =
    elim (Bool-cases (mode_eq c.snapshot.desired_resource_mode (mode_target c mode))) [
      | inl q ↦ ground (arith, mode_eq_iff c.snapshot.desired_resource_mode (mode_target c mode))
      | inr q ↦
          subst (Shows s (if e then mode else home) e)
            {x = stop_requested (desire c (mode_target c mode)) (mode_target c mode)
              c.resource_worker.current_service}
            {y = set_desired_resource_mode c mode} (ground arith)
            (subst
              (λ (m' : ResourceMode). Shows s m' e (
                stop_requested (desire c (mode_target c mode)) (mode_target c mode)
                  c.resource_worker.current_service))
              (ap (λ (x : Bool). if x then mode else home) v.exclusive)
              (stop_requested-Shows (desire c (mode_target c mode)) (mode_target c mode)
                c.resource_worker.current_service (desire-Shows c (mode_target c mode) v)))
    ]

kept-Shows :
    {s : Session} {m : ResourceMode} {x : Bool} (c : Coordinator) (t : Session)
    → Shows s m x c
    → t ≡ s
    → Shows t m x (record c { snapshot = record c.snapshot { media_session = t } })
kept-Shows c t v q = record {
  session = refl;
  media = ground arith;
  mode = v.mode;
  exclusive = v.exclusive;
}

after_transition-Shows :
    {s : Session} {m : ResourceMode} {x : Bool} (c : Coordinator) (now : ℕ) (t : Session)
    (st : Status)
    → Shows s m x c
    → (st ≢ applied → t ≡ s)
    → Shows t m x (after_transition c now (t, st)).0
after_transition-Shows c now t applied v same = session_applied-Shows c t now v
after_transition-Shows c now t Status.no_change v same = kept-Shows c t v (same (λ e. cc))
after_transition-Shows c now t Status.stale v same = kept-Shows c t v (same (λ e. cc))
after_transition-Shows c now t Status.invalid v same = kept-Shows c t v (same (λ e. cc))

-- An event with or without authority, on the session shown.
pub apply_media_event-Shows :
    {m : ResourceMode} {x : Bool} (c : Coordinator) (e : Event) (allow : Bool) (now : ℕ)
    → (allow || not (is_authority e.kind)) ≡ true
    → Shows c.snapshot.media_session m x c
    → Shows (transition c.snapshot.media_session e).0 m x (apply_media_event c e allow now).0
unfolding apply_media_event
apply_media_event-Shows {m} {x} c e allow now a v =
    subst (λ (r : Coordinator × Status). Shows (transition c.snapshot.media_session e).0 m x r.0)
      {x = after_transition c now (transition c.snapshot.media_session e)}
      {y = apply_media_event c e allow now} (ground arith)
      (after_transition-Shows c now (transition c.snapshot.media_session e).0
        (transition c.snapshot.media_session e).1 v (transition-same c.snapshot.media_session e))

-- A refused authority event changes nothing.
pub apply_media_event-refused :
    (c : Coordinator) (e : Event) (now : ℕ)
    → is_authority e.kind ≡ true
    → apply_media_event c e false now ≡ (c, Status.invalid)
unfolding apply_media_event
apply_media_event-refused c e now h = ground arith
