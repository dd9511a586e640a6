-- ===== src/App/Coordinator/Convergence.antt =====
-- source/app/protocol_coordinator.c: a run of the resource worker, whose starts succeed, with other
-- threads at work in its gaps, leaves every service in the state that the target mode asks for.
use nx_cast.Base.{ℕ, ◌≡◌, refl, arith, Bool, true, false, not, if◌then◌else◌, Bool-cases, inl, inr}
use nx_cast.App.Coordinator.Data.{
  Service, iptv, dlna, airplay, ServiceState, ResourceMode, home, service_state_eq, mode_eq,
  PerService, at, Coordinator,
}
use nx_cast.App.Coordinator.Resources.{
  Others, set_background, service_required, service_matches, services_match, transition_allowed,
  target_current, Turn, continued, finished, then_turn, start_loop, complete, finish_worker,
  Answers, suspend_first, worker_turns, worker_run,
}
use nx_cast.App.Coordinator.Shows.{mode_eq_iff}
use nx_cast.App.Coordinator.Steady.{Steady, Leaves, Leaves-Steady, set_background-Steady}
use nx_cast.App.Coordinator.Turns.{
  after_stop, after_start, stopped_all, started_all, Went, then_turn-Went, stop_loop-Went,
  start_loop-Went,
}

-- Every service is configured as the states say: a disabled one is not enabled, and no other is.
abbrev pub IsConfigured : PerService Bool → PerService ServiceState → Type 0
IsConfigured e xs = (k : Service) → service_state_eq (at xs k) ServiceState.disabled ≡ not (at e k)

fits :
    (t : ResourceMode) (e : PerService Bool) (k : Service) (s : ServiceState)
    → service_state_eq s ServiceState.disabled ≡ not (at e k)
    → (if not (at e k)
        then service_state_eq (after_start t e k (after_stop t e k s)) ServiceState.disabled
        else if service_required t k e
        then service_state_eq (after_start t e k (after_stop t e k s)) ServiceState.running
        else service_state_eq (after_start t e k (after_stop t e k s)) ServiceState.stopped)
      ≡ true
unfolding service_required service_state_eq
fits t e k ServiceState.disabled h = ground arith
fits t e k ServiceState.stopped h = ground arith
fits t e k ServiceState.starting h = ground arith
fits t e k ServiceState.running h = ground arith
fits t e k ServiceState.failed h = ground arith

-- What the services' states make of the match.
matches-fits :
    (c : Coordinator) (xs : PerService ServiceState) (e : PerService Bool) (t : ResourceMode)
    → IsConfigured e xs
    → c.snapshot.services ≡ started_all t e (stopped_all t e xs)
    → c.configured_enabled ≡ e
    → services_match c t ≡ true
unfolding services_match service_matches
matches-fits c xs e t h p q = rw p (
    rw q (
      rw (fits t e iptv xs.of_iptv (h iptv))
        (rw (fits t e dlna xs.of_dlna (h dlna)) (fits t e airplay xs.of_airplay (h airplay)))))

-- What the end of the run leaves.
pub record Converged (xs : PerService ServiceState) (e : PerService Bool) (t : ResourceMode)
    (c : Coordinator) : Type 0 where
  pub states : c.snapshot.services ≡ xs
  pub enabled : c.configured_enabled ≡ e
  pub mode : c.snapshot.applied_resource_mode ≡ t
  pub succeeded : c.snapshot.resource_transition_failed ≡ false
  pub ended : c.snapshot.resource_transition_active ≡ false

finish_worker-Converged :
    (xs : PerService ServiceState) (e : PerService Bool) (t : ResourceMode) (now : ℕ) (turn : Turn)
    → Went true xs e t turn
    → Converged xs e t (finish_worker t now turn)
unfolding finish_worker Went
finish_worker-Converged xs e t now (continued true c) (p, v) = record {
  states = v.states;
  enabled = v.enabled;
  mode = refl;
  succeeded = refl;
  ended = refl;
}
finish_worker-Converged xs e t now (continued false c) (p, v) = cc
finish_worker-Converged xs e t now (finished b c) h = absurd h

wanted_target :
    {xs : PerService ServiceState} {e : PerService Bool} {t : ResourceMode} (c : Coordinator)
    → Steady xs e t c
    → mode_eq c.snapshot.desired_resource_mode t ≡ true
wanted_target {t} c v = (mode_eq_iff c.snapshot.desired_resource_mode t).1 v.target

background_ok :
    (c : Coordinator) (s answer : Bool) → answer ≡ true → (set_background c s answer).0 ≡ true
unfolding set_background
background_ok c s answer y = ground arith

start-Steady :
    (c : Coordinator) (t : ResourceMode)
    → transition_allowed c ≡ true
    → target_current c t ≡ true
    → Steady c.snapshot.services c.configured_enabled t c
unfolding transition_allowed target_current
start-Steady c t a b = record {
  states = refl;
  enabled = refl;
  target = (mode_eq_iff c.snapshot.desired_resource_mode t).0 b;
  active = ground arith;
  up = ground arith;
  kept = ground arith;
}

complete-Went :
    {xs : PerService ServiceState} {e : PerService Bool} {t : ResourceMode} (answer : Bool)
    (c : Coordinator)
    → answer ≡ true
    → Steady xs e t c
    → Went true xs e t (complete t answer true c)
unfolding complete target_current Went
complete-Went {t} answer c y v = elim (Bool-cases (mode_eq t home)) [
  | inl q ↦
      rw (wanted_target c v)
        (rw q (background_ok c false answer y, set_background-Steady c false answer v))
  | inr q ↦ rw (wanted_target c v) (rw q (refl, v))
]

first-Steady :
    {xs : PerService ServiceState} {e : PerService Bool} {t : ResourceMode} (answer : Bool)
    (c : Coordinator)
    → answer ≡ true
    → Steady xs e t c
    → ((suspend_first c t answer).0 ≡ true) × Steady xs e t (suspend_first c t answer).1
first-Steady {t} answer c y v = elim (Bool-cases (mode_eq t home)) [
  | inl q ↦ rw q (refl, v)
  | inr q ↦ rw q (background_ok c true answer y, set_background-Steady c true answer v)
]

module _ (others : Others) (quiet : (n : ℕ) (d : Coordinator) → Leaves d (others n d)) where
  worker_turns-Went :
      (xs : PerService ServiceState) (e : PerService Bool) (t : ResourceMode) (c : Coordinator)
      (now : ℕ) (a : Answers)
      → a.suspend ≡ true
      → ((k : Service) → at a.starts k ≡ true)
      → a.resume ≡ true
      → Steady xs e t c
      → Went true (started_all t e (stopped_all t e xs)) e t (worker_turns others c t now a)
  unfolding worker_turns
  worker_turns-Went xs e t c now a s y r v =
      let first = first-Steady a.suspend c s v in
      rw first.0 (
        then_turn-Went (others 6) true (started_all t e (stopped_all t e xs)) _ _
          (complete t a.resume) (quiet 6)
          (then_turn-Went (others 3) true (stopped_all t e xs) _ _
            (start_loop others t now a.starts) (quiet 3)
            (stop_loop-Went others true xs now (others 0 (suspend_first c t a.suspend).1) quiet
              (Leaves-Steady (quiet 0 _) first.1))
            (λ c' v'. start_loop-Went others true (stopped_all t e xs) now a.starts c' quiet y v'))
          (λ c' v'. complete-Went a.resume c' r v'))

  -- The run of the resource worker for a target that is the wanted mode, in an active runtime that is neither
  -- stopping nor stopped, where a service is disabled just when it is not configured, and all callbacks
  -- succeed. Other threads may do anything in the gaps of the run, before and after the turn for each
  -- service, that leaves alone the services' states and configuration, the wanted mode, and the
  -- runtime's being up; nothing comes between the regions of one turn. Then every service ends in the state
  -- that the target asks for, the target is the applied mode, and the transition is neither active
  -- nor failed.
  pub worker_run_converges :
      (c : Coordinator) (now : ℕ) (a : Answers)
      → transition_allowed c ≡ true
      → target_current c c.resource_worker.target ≡ true
      → IsConfigured c.configured_enabled c.snapshot.services
      → a.suspend ≡ true
      → ((k : Service) → at a.starts k ≡ true)
      → a.resume ≡ true
      → let r = worker_run others c now a in
        (services_match r c.resource_worker.target ≡ true)
        × (r.snapshot.applied_resource_mode ≡ c.resource_worker.target)
        × (r.snapshot.resource_transition_failed ≡ false)
        × (r.snapshot.resource_transition_active ≡ false)
  unfolding worker_run Went
  worker_run_converges c now a allowed current configured s y r =
      let t = c.resource_worker.target in
      let e = c.configured_enabled in
      let ys = started_all t e (stopped_all t e c.snapshot.services) in
      let done =
        finish_worker-Converged ys e t now
          (then_turn (others 7) (worker_turns others c t now a) continued)
          (then_turn-Went (others 7) true ys ys (worker_turns others c t now a) continued (quiet 7)
            (worker_turns-Went c.snapshot.services e t c now a s y r
              (start-Steady c t allowed current))
            (λ d v. (refl, v))) in
      (
        matches-fits _ c.snapshot.services e t configured done.states done.enabled,
        done.mode,
        done.succeeded,
        done.ended,
      )
