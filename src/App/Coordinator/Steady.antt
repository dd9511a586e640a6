-- ===== src/App/Coordinator/Steady.antt =====
-- source/app/protocol_coordinator.c: what starting and stopping a service leave of the services' states
-- while the coordinator runs.
use nx_cast.Base.{ℕ, ◌≡◌, refl, sym, ap, ◌∙◌, subst, arith, Bool, true, false, Bool-cases, inl, inr}
use nx_cast.App.Coordinator.Data.{
  Service, iptv, dlna, airplay, ServiceState, ResourceMode, Lifecycle, service_state_eq,
  lifecycle_eq, PerService, at, put, Coordinator, Callback,
}
use nx_cast.App.Coordinator.States.{bump, called, recompute_state, set_service_state, state_changed}
use nx_cast.App.Coordinator.Resources.{
  set_background, transition_allowed, target_current, clear_airplay_status, clear_if_airplay,
  set_stop_required, stop_calls, stop_service, start_region, start_service, cleaned, interrupted,
}
use nx_cast.App.Coordinator.Shows.{mode_eq_iff}

-- The services' states, the configuration and the target, while the coordinator runs.
pub record Steady (xs : PerService ServiceState) (e : PerService Bool) (t : ResourceMode)
    (c : Coordinator) : Type 0 where
  pub states : c.snapshot.services ≡ xs
  pub enabled : c.configured_enabled ≡ e
  pub target : c.snapshot.desired_resource_mode ≡ t
  pub active : c.runtime_active ≡ true
  pub up : lifecycle_eq c.lifecycle Lifecycle.stopped ≡ false
  pub kept : lifecycle_eq c.lifecycle Lifecycle.stopping ≡ false

-- What the other threads leave alone in a gap of the worker's run: the services' states and configuration,
-- the wanted mode, and that the runtime is active and neither stopping nor stopped.
pub record Leaves (c c' : Coordinator) : Type 0 where
  pub states : c'.snapshot.services ≡ c.snapshot.services
  pub enabled : c'.configured_enabled ≡ c.configured_enabled
  pub target : c'.snapshot.desired_resource_mode ≡ c.snapshot.desired_resource_mode
  pub active : c'.runtime_active ≡ c.runtime_active
  pub up : lifecycle_eq c'.lifecycle Lifecycle.stopped ≡ lifecycle_eq c.lifecycle Lifecycle.stopped
  pub kept :
      lifecycle_eq c'.lifecycle Lifecycle.stopping ≡ lifecycle_eq c.lifecycle Lifecycle.stopping

pub Leaves-Steady :
    {xs : PerService ServiceState} {e : PerService Bool} {t : ResourceMode} {c c' : Coordinator}
    → Leaves c c'
    → Steady xs e t c
    → Steady xs e t c'
Leaves-Steady l v = record {
  states = l.states ∙ v.states;
  enabled = l.enabled ∙ v.enabled;
  target = l.target ∙ v.target;
  active = l.active ∙ v.active;
  up = l.up ∙ v.up;
  kept = l.kept ∙ v.kept;
}

pub service_state_eq_iff :
    (a b : ServiceState)
    → (service_state_eq a b ≡ true → a ≡ b) × (a ≡ b → service_state_eq a b ≡ true)
unfolding service_state_eq
service_state_eq_iff a b = ground arith

pub put_self : (xs : PerService ServiceState) (k : Service) → put xs k (at xs k) ≡ xs
put_self xs iptv = refl
put_self xs dlna = refl
put_self xs airplay = refl

pub put-put :
    (xs : PerService ServiceState) (k : Service) (a b : ServiceState)
    → put (put xs k a) k b ≡ put xs k b
put-put xs iptv a b = refl
put-put xs dlna a b = refl
put-put xs airplay a b = refl

module _ {xs : PerService ServiceState} {e : PerService Bool} {t : ResourceMode}
    (c : Coordinator) where
  recompute_state-Steady : Steady xs e t c → Steady xs e t (recompute_state c)
  unfolding recompute_state lifecycle_eq
  recompute_state-Steady v = ground arith

  called-Steady : (b : Bool) (k : Callback) → Steady xs e t c → Steady xs e t (called c b k)
  called-Steady b k v = ground arith

  clear_if_airplay-Steady : (k : Service) → Steady xs e t c → Steady xs e t (clear_if_airplay k c)
  unfolding clear_airplay_status
  clear_if_airplay-Steady iptv v = v
  clear_if_airplay-Steady dlna v = v
  clear_if_airplay-Steady airplay v = ground arith

  pub set_background-Steady :
      (s answer : Bool) → Steady xs e t c → Steady xs e t (set_background c s answer).1
  unfolding set_background
  set_background-Steady s answer v = ground arith

  set_stop_required-Steady :
      (k : Service) (b : Bool) → Steady xs e t c → Steady xs e t (set_stop_required c k b)
  set_stop_required-Steady k b v = record {
    states = v.states;
    enabled = v.enabled;
    target = v.target;
    active = v.active;
    up = v.up;
    kept = v.kept;
  }

written-Steady :
    {xs : PerService ServiceState} {e : PerService Bool} {t : ResourceMode} (c : Coordinator)
    (k : Service) (s : ServiceState) (now : ℕ)
    → Steady xs e t c
    → Steady (put xs k s) e t (record c {
      snapshot = record c.snapshot { services = put c.snapshot.services k s };
      service_transition_ms = put c.service_transition_ms k now;
    })
written-Steady c k s now v = record {
  states = ap (λ (ys : PerService ServiceState). put ys k s) v.states;
  enabled = v.enabled;
  target = v.target;
  active = v.active;
  up = v.up;
  kept = v.kept;
}

pub bump-Steady :
    {xs : PerService ServiceState} {e : PerService Bool} {t : ResourceMode} (c : Coordinator)
    → Steady xs e t c
    → Steady xs e t (bump c)
bump-Steady c v = record {
  states = v.states;
  enabled = v.enabled;
  target = v.target;
  active = v.active;
  up = v.up;
  kept = v.kept;
}

set_service_state-Steady :
    {xs : PerService ServiceState} {e : PerService Bool} {t : ResourceMode} (c : Coordinator)
    (k : Service) (s : ServiceState) (now : ℕ)
    → Steady xs e t c
    → Steady (put xs k s) e t (set_service_state c k s now).1
unfolding set_service_state state_changed
set_service_state-Steady {xs} {e} {t} c k s now v =
    elim (Bool-cases (service_state_eq (at c.snapshot.services k) s)) [
      | inl q ↦ rw v.up (
          rw q (
            subst (λ (ys : PerService ServiceState). Steady ys e t c)
              (sym (put_self xs k)
                ∙ ap (put xs k) (
                    ap (λ (ys : PerService ServiceState). at ys k) (sym v.states)
                    ∙ (service_state_eq_iff (at c.snapshot.services k) s).0 q))
              v))
      | inr q ↦
          rw v.up (rw q (bump-Steady _ (recompute_state-Steady _ (written-Steady c k s now v))))
    ]

pub stop_service-Steady :
    {xs : PerService ServiceState} {e : PerService Bool} {t : ResourceMode} (c : Coordinator)
    (k : Service) (now : ℕ)
    → Steady xs e t c
    → Steady (put xs k ServiceState.stopped) e t (stop_service c k now)
unfolding stop_service stop_calls
stop_service-Steady c k now v = clear_if_airplay-Steady _ k (
    set_service_state-Steady _ k ServiceState.stopped now
      (set_stop_required-Steady _ k false (called-Steady _ _ _ (called-Steady _ _ _ v))))

pub allowed-Steady :
    {xs : PerService ServiceState} {e : PerService Bool} {t : ResourceMode} (c : Coordinator)
    → Steady xs e t c
    → transition_allowed c ≡ true
unfolding transition_allowed
allowed-Steady c v = ground arith

pub interrupted-Steady :
    {xs : PerService ServiceState} {e : PerService Bool} {t : ResourceMode} (c : Coordinator)
    → Steady xs e t c
    → interrupted c t ≡ false
unfolding target_current
interrupted-Steady {t} c v =
    ground (arith, allowed-Steady c v, mode_eq_iff c.snapshot.desired_resource_mode t)

start_region-Steady :
    {xs : PerService ServiceState} {e : PerService Bool} {t : ResourceMode} (c : Coordinator)
    (k : Service) (now : ℕ)
    → Steady xs e t c
    → Steady (put xs k ServiceState.running) e t (start_region c k now true)
unfolding start_region
start_region-Steady {xs} {e} {t} c k now v =
    subst (λ (ys : PerService ServiceState). Steady ys e t (start_region c k now true))
      (put-put xs k ServiceState.starting ServiceState.running)
      (set_service_state-Steady _ k ServiceState.running now (
        set_stop_required-Steady _ k _
          (called-Steady _ true _ (set_service_state-Steady c k ServiceState.starting now v))))

start_cleaned-Steady :
    {xs : PerService ServiceState} {e : PerService Bool} {t : ResourceMode} (c : Coordinator)
    (k : Service) (now : ℕ)
    → Steady xs e t c
    → Steady (put xs k ServiceState.running) e t (start_region (cleaned c k now) k now true)
start_cleaned-Steady {xs} {e} {t} c k now v = elim (Bool-cases (at c.stop_required k)) [
  | inl q ↦ rw q (
      subst
        (λ (ys : PerService ServiceState).
          Steady ys e t (start_region (stop_service c k now) k now true))
        (put-put xs k ServiceState.stopped ServiceState.running)
        (start_region-Steady (stop_service c k now) k now (stop_service-Steady c k now v)))
  | inr q ↦ rw q (start_region-Steady c k now v)
]

allowed-cleaned :
    {xs : PerService ServiceState} {e : PerService Bool} {t : ResourceMode} (c : Coordinator)
    (k : Service) (now : ℕ)
    → Steady xs e t c
    → transition_allowed (cleaned c k now) ≡ true
allowed-cleaned c k now v = elim (Bool-cases (at c.stop_required k)) [
  | inl q ↦ rw q (allowed-Steady (stop_service c k now) (stop_service-Steady c k now v))
  | inr q ↦ rw q (allowed-Steady c v)
]

pub start_service-Steady :
    {xs : PerService ServiceState} {e : PerService Bool} {t : ResourceMode} (c : Coordinator)
    (k : Service) (now : ℕ)
    → Steady xs e t c
    → ((start_service c k now true).0 ≡ true)
      × Steady (put xs k ServiceState.running) e t (start_service c k now true).1
unfolding start_service
start_service-Steady c k now v =
    rw (allowed-cleaned c k now v) (refl, start_cleaned-Steady c k now v)
