-- ===== src/App/Coordinator/Turns.antt =====
-- source/app/protocol_coordinator.c: what the turns of the resource worker's two loops leave of the
-- services' states, with other threads at work between them.
use nx_cast.Base.{
  ℕ, ◌≡◌, refl, sym, subst, arith, Bool, true, false, not, ◌&&◌, ◌||◌, Option, some, none,
  if◌then◌else◌, Bool-cases, inl, inr,
}
use nx_cast.App.Coordinator.Data.{
  Service, iptv, dlna, airplay, ServiceState, ResourceMode, service_state_eq, PerService, at, put,
  Coordinator,
}
use nx_cast.App.Coordinator.Resources.{
  Others, service_required, set_start_call, Turn, continued, finished, stop_turn, start_turn,
  then_turn, stop_loop, start_loop,
}
use nx_cast.App.Coordinator.Steady.{
  Steady, Leaves, Leaves-Steady, put_self, stop_service-Steady, start_service-Steady,
  interrupted-Steady,
}

-- The state of a service after a turn of the loops.
abbrev pub after_stop : ResourceMode → PerService Bool → Service → ServiceState → ServiceState
after_stop t e k s =
    if service_state_eq s ServiceState.disabled
      || service_state_eq s ServiceState.stopped
      || service_required t k e
    then s
    else ServiceState.stopped

abbrev pub after_start : ResourceMode → PerService Bool → Service → ServiceState → ServiceState
after_start t e k s =
    if not (service_required t k e) || service_state_eq s ServiceState.running
    then s
    else ServiceState.running

-- Both loops, on the three services.
abbrev pub stopped_all :
    ResourceMode → PerService Bool → PerService ServiceState → PerService ServiceState
stopped_all t e xs = record {
  of_iptv = after_stop t e iptv xs.of_iptv;
  of_dlna = after_stop t e dlna xs.of_dlna;
  of_airplay = after_stop t e airplay xs.of_airplay;
}

abbrev pub started_all :
    ResourceMode → PerService Bool → PerService ServiceState → PerService ServiceState
started_all t e xs = record {
  of_iptv = after_start t e iptv xs.of_iptv;
  of_dlna = after_start t e dlna xs.of_dlna;
  of_airplay = after_start t e airplay xs.of_airplay;
}

-- The turn went on with the success `b`.
unfoldable pub Went :
    Bool → PerService ServiceState → PerService Bool → ResourceMode → Turn → Type 0
Went b xs e t (continued b' c) = (b' ≡ b) × Steady xs e t c
Went b xs e t (finished b' c) = ⊥

module _ {e : PerService Bool} {t : ResourceMode} where
  pub then_turn-Went :
      (gap : Coordinator → Coordinator) (b : Bool) (xs ys : PerService ServiceState) (turn : Turn)
      (f : Bool → Coordinator → Turn)
      → ((c : Coordinator) → Leaves c (gap c))
      → Went b xs e t turn
      → ((c : Coordinator) → Steady xs e t c → Went b ys e t (f b c))
      → Went b ys e t (then_turn gap turn f)
  unfolding Went
  then_turn-Went gap b xs ys (continued b' c) f quiet (p, v) next =
      subst (λ (x : Bool). Went b ys e t (f x (gap c))) (sym p)
        (next (gap c) (Leaves-Steady (quiet c) v))
  then_turn-Went gap b xs ys (finished b' c) f quiet h next = absurd h

moved-Went :
    (t : ResourceMode) (b : Bool) (xs ys : PerService ServiceState) (d e : PerService Bool)
    (turn : Turn)
    → xs ≡ ys
    → d ≡ e
    → Went b xs d t turn
    → Went b ys e t turn
moved-Went t b xs ys d e turn p q w =
    subst (λ (x : PerService Bool). Went b ys x t turn) q
      (subst (λ (zs : PerService ServiceState). Went b zs d t turn) p w)

stop_turn_self-Went :
    {t : ResourceMode} (b : Bool) (k : Service) (now : ℕ) (c : Coordinator)
    → Steady c.snapshot.services c.configured_enabled t c
    → Went b
        (put c.snapshot.services k (after_stop t c.configured_enabled k (at c.snapshot.services k)))
        c.configured_enabled
        t
        (stop_turn t now k b c)
unfolding stop_turn Went
stop_turn_self-Went {t} b k now c v =
    elim (Bool-cases (
      service_state_eq (at c.snapshot.services k) ServiceState.disabled
      || service_state_eq (at c.snapshot.services k) ServiceState.stopped
      || service_required t k c.configured_enabled)) [
        | inl q ↦ rw (interrupted-Steady c v) (
            rw q (
              refl,
              subst (λ (ys : PerService ServiceState). Steady ys c.configured_enabled t c)
                  (sym (put_self c.snapshot.services k)) v,
            ))
        | inr q ↦ rw (interrupted-Steady c v) (rw q (refl, stop_service-Steady c k now v))
      ]

and_true : (b x : Bool) → x ≡ true → (b && x) ≡ b
and_true b x h = ground arith

set_start_call-Steady :
    {xs : PerService ServiceState} {e : PerService Bool} {t : ResourceMode} (c : Coordinator)
    (k : Option Service) (b : Bool)
    → Steady xs e t c
    → Steady xs e t (set_start_call c k b)
set_start_call-Steady c k b v = record {
  states = v.states;
  enabled = v.enabled;
  target = v.target;
  active = v.active;
  up = v.up;
  kept = v.kept;
}

start_turn_self-Went :
    {t : ResourceMode} (b : Bool) (k : Service) (now : ℕ) (answers : PerService Bool)
    (c : Coordinator)
    → at answers k ≡ true
    → Steady c.snapshot.services c.configured_enabled t c
    → Went b
        (put c.snapshot.services k
          (after_start t c.configured_enabled k (at c.snapshot.services k)))
        c.configured_enabled
        t
        (start_turn t now answers k b c)
unfolding start_turn Went
start_turn_self-Went {t} b k now answers c y v =
    elim (Bool-cases (
      not (service_required t k c.configured_enabled)
      || service_state_eq (at c.snapshot.services k) ServiceState.running)) [
        | inl q ↦ rw (interrupted-Steady c v) (
            rw q (
              refl,
              subst (λ (ys : PerService ServiceState). Steady ys c.configured_enabled t c)
                  (sym (put_self c.snapshot.services k)) v,
            ))
        | inr q ↦ rw (interrupted-Steady c v) (
            rw q (
              rw y (
                let r =
                  start_service-Steady (set_start_call c (some k) true) k now
                    (set_start_call-Steady c (some k) true v) in
                (and_true b _ r.0, set_start_call-Steady _ none false r.1))))
      ]

self-Steady :
    {xs : PerService ServiceState} {e : PerService Bool} {t : ResourceMode} (c : Coordinator)
    → Steady xs e t c
    → Steady c.snapshot.services c.configured_enabled t c
self-Steady c v = record {
  states = refl;
  enabled = refl;
  target = v.target;
  active = v.active;
  up = v.up;
  kept = v.kept;
}

module _ {e : PerService Bool} {t : ResourceMode} where
  stop_turn-Went :
      (b : Bool) (xs : PerService ServiceState) (k : Service) (now : ℕ) (c : Coordinator)
      → Steady xs e t c
      → Went b (put xs k (after_stop t e k (at xs k))) e t (stop_turn t now k b c)
  stop_turn-Went b xs k now c v =
      moved-Went t b _ _ c.configured_enabled e _
        (λ i. put (v.states i) k (after_stop t (v.enabled i) k (at (v.states i) k))) v.enabled
        (stop_turn_self-Went b k now c (self-Steady c v))

  start_turn-Went :
      (b : Bool) (xs : PerService ServiceState) (k : Service) (now : ℕ) (answers : PerService Bool)
      (c : Coordinator)
      → at answers k ≡ true
      → Steady xs e t c
      → Went b (put xs k (after_start t e k (at xs k))) e t (start_turn t now answers k b c)
  start_turn-Went b xs k now answers c y v =
      moved-Went t b _ _ c.configured_enabled e _
        (λ i. put (v.states i) k (after_start t (v.enabled i) k (at (v.states i) k))) v.enabled
        (start_turn_self-Went b k now answers c y (self-Steady c v))

  pub stop_loop-Went :
      (others : Others) (b : Bool) (xs : PerService ServiceState) (now : ℕ) (c : Coordinator)
      → ((n : ℕ) (d : Coordinator) → Leaves d (others n d))
      → Steady xs e t c
      → Went b (stopped_all t e xs) e t (stop_loop others t now b c)
  unfolding stop_loop
  stop_loop-Went others b xs now c quiet v =
      then_turn-Went (others 2) b _ (stopped_all t e xs) _ (stop_turn t now iptv) (quiet 2)
        (then_turn-Went (others 1) b (put xs airplay (after_stop t e airplay xs.of_airplay)) _ _
          (stop_turn t now dlna) (quiet 1) (stop_turn-Went b xs airplay now c v)
          (λ c' v'. stop_turn-Went b _ dlna now c' v'))
        (λ c' v'.
          stop_turn-Went b
            (put (put xs airplay (after_stop t e airplay xs.of_airplay)) dlna
              (after_stop t e dlna xs.of_dlna))
            iptv now c' v')

  pub start_loop-Went :
      (others : Others) (b : Bool) (xs : PerService ServiceState) (now : ℕ)
      (answers : PerService Bool) (c : Coordinator)
      → ((n : ℕ) (d : Coordinator) → Leaves d (others n d))
      → ((k : Service) → at answers k ≡ true)
      → Steady xs e t c
      → Went b (started_all t e xs) e t (start_loop others t now answers b c)
  unfolding start_loop
  start_loop-Went others b xs now answers c quiet y v =
      then_turn-Went (others 5) b _ (started_all t e xs) _ (start_turn t now answers airplay)
        (quiet 5)
        (then_turn-Went (others 4) b (put xs iptv (after_start t e iptv xs.of_iptv)) _ _
          (start_turn t now answers dlna) (quiet 4)
          (start_turn-Went b xs iptv now answers c (y iptv) v)
          (λ c' v'. start_turn-Went b _ dlna now answers c' (y dlna) v'))
        (λ c' v'.
          start_turn-Went b
            (put (put xs iptv (after_start t e iptv xs.of_iptv)) dlna
              (after_start t e dlna xs.of_dlna))
            airplay now answers c' (y airplay) v')
