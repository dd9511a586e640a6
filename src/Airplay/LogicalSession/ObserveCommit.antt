-- ===== src/Airplay/LogicalSession/ObserveCommit.antt =====
-- Binding a connection to an Apple session in source/protocol/airplay/protocol/logical_session.c, and
-- the whole of `observe`, keep the tables well formed.
use nx_cast.Base.{
  ℕ, ◌≡◌, ◌≢◌, ◌⊎◌, inl, inr, refl, sym, ◌∙◌, subst, Bool, true, false, not, ◌&&◌, Option, some,
  none, arith, ◌==◌, get_elem?, get_elem?-set_at, Bool-cases,
}
use nx_cast.Base.Slots.{weigh, weigh_of_none, All-get}
use nx_cast.Base.Text.{Bytes, bytes_eq, bytes_eq_iff}
use nx_cast.Airplay.LogicalSession.Rtsp.{
  ConnectionKind, Request, header_value, apple_session_header, valid_apple_session_id,
  requires_logical_binding, classify_request,
}
use nx_cast.Airplay.LogicalSession.Entries.{
  Connection, Logical, Manager, zero_connection, zero_logical, set_connection, set_logical,
  find_logical_by_apple_id, bind_connection, allocate_logical_id, has_logical_id,
}
use nx_cast.Airplay.LogicalSession.Observe.{
  ObserveResult, Found, found, refused, choose_connection, choose_logical, note_connection,
  bind_apple, commit, observe_locked, observe_header, observe,
}
use nx_cast.Airplay.LogicalSession.Invariant.{Inv, IsClean, with_id, with_apple_id, set_both-Inv}
use nx_cast.Airplay.LogicalSession.Lookup.{find_logical_by_apple_id-none}
use nx_cast.Airplay.LogicalSession.Allocate.{allocate_logical_id-fresh, allocate_logical_id_bounds}
use nx_cast.Airplay.LogicalSession.ObserveInvariant.{
  Chosen, Offered, choose_connection-Chosen, choose_logical-Offered, noted-Inv,
  note_connection-used, counter-Inv, undo-Inv, bind_used-Inv,
}

-- Binding a connection to a session that takes a free entry.
bind_fresh-Inv :
    (m : Manager) (i j : ℕ) (c : Connection) (old l : Logical)
    → Inv m
    → get_elem? m.connections i ≡ some c
    → c.used ≡ true
    → c.logical_session_bound ≡ false
    → get_elem? m.logical_sessions j ≡ some old
    → old.used ≡ false
    → l.used ≡ true
    → l.connection_count ≡ 0
    → l.logical_session_id ≢ 0
    → weigh (with_id l.logical_session_id) m.logical_sessions ≡ 0
    → weigh (with_apple_id l.apple_session_id) m.logical_sessions ≡ 0
    → Inv (bind_connection m i c j l).0
unfolding bind_connection
bind_fresh-Inv m i j c old l v at used free at_l unused used_l none_yet real no_id no_apple =
    let (m', c', l') = bind_connection m i c j l in
    subst Inv {x = set_logical (set_connection m i c') j l'} (ground arith) (
      set_both-Inv m i j c c' old l' v at at_l (λ n. ground arith)
        (λ n. ground (arith, v.unique_connection_id n)) (λ n. ground (arith, v.unique_id n))
        (λ a. ground (arith, v.unique_apple_id a, bytes_eq_iff l.apple_session_id a))
        (record { unbound = λ e. ground arith; no_client = λ e. ground arith })
        (record { needed = λ e. ground arith; has_id = λ e. ground arith }))

-- The binding of an unbound connection, on every branch.
bind_apple-Inv :
    (m : Manager) (i j : ℕ) (c : Connection) (is_new : Bool) (l : Logical) (a : Bytes)
    → Inv m
    → get_elem? m.connections i ≡ some c
    → c.used ≡ true
    → c.logical_session_bound ≡ false
    → get_elem? m.logical_sessions j ≡ some l
    → Offered m a l
    → Inv (bind_apple m i c is_new j l a).after
unfolding bind_apple
bind_apple-Inv m i j c is_new l a v at used free at_l offer =
    elim (Bool-cases
      (c.client_id_bound && (l.client_id_bound && not (bytes_eq c.client_id l.client_id)))) [
        | inl clash ↦ elim (Bool-cases is_new) [
          | inl new ↦
              subst Inv {x = set_connection m i zero_connection} (ground arith)
                (undo-Inv m i c v at free)
          | inr old ↦ subst Inv {x = m} (ground arith) v
        ]
        | inr agree ↦ elim offer [
          | inl (used_l, same) ↦
              subst Inv {x = (bind_connection m i c j l).0} (ground arith)
                (bind_used-Inv m i j c l v at used free at_l used_l)
          | inr (unused, absent) ↦
              let id = (allocate_logical_id m).0 in
              let m' = record m { next_logical_session_id = (allocate_logical_id m).1 } in
              let new = record zero_logical {
                logical_session_id = id;
                apple_session_id = a;
                used = true;
              } in
              let bounds = allocate_logical_id_bounds m v in
              let alloc = allocate_logical_id-fresh m v in
              let no_id =
                weigh_of_none (has_logical_id id) (with_id id) m.logical_sessions (λ n e. rw e)
                  alloc.1 in
              subst Inv {x = (bind_connection m' i c j new).0} (ground (arith, alloc.0)) (
                bind_fresh-Inv m' i j c l new (counter-Inv m _ v bounds.0 bounds.1) at used free
                  at_l unused refl refl alloc.0 no_id (find_logical_by_apple_id-none m a absent))
        ]
      ]

-- The registration and the binding, behind the choices.
commit-Inv :
    (m : Manager) (id : ℕ) (r : Request) (apple : Option Bytes) (k : ConnectionKind) (i : ℕ)
    (c : Connection) (is_new : Bool) (logical : Option (ℕ × Logical))
    → Inv m
    → get_elem? m.connections i ≡ some c
    → Chosen m id c is_new
    → choose_logical m c apple ≡ found logical
    → Inv (commit m id r apple k (i, c, is_new) logical).after
unfolding commit find_logical_by_apple_id
commit-Inv m id r apple k i c is_new none v at ch h =
    elim (Bool-cases (requires_logical_binding r)) [
      | inl media ↦ subst Inv {x = m} (ground arith) v
      | inr other ↦
          subst Inv {x = set_connection m i (note_connection c is_new id k)} (ground arith)
            (noted-Inv m id i c is_new k v at ch)
    ]
commit-Inv m id r none k i c is_new (some (j, l)) v at ch h = noted-Inv m id i c is_new k v at ch
commit-Inv m id r (some a) k i c is_new (some (j, l)) v at ch h =
    let c' = note_connection c is_new id k in
    let m' = set_connection m i c' in
    let v' : Inv m' = noted-Inv m id i c is_new k v at ch in
    let noted =
      note_connection-used m id c is_new k ch (All-get IsClean m.connections i v.clean at) in
    elim (Bool-cases c'.logical_session_bound) [
      | inl bound ↦ subst Inv {x = m'} (ground arith) v'
      | inr free ↦
          let offer = choose_logical-Offered m c a (sym noted.2 ∙ free) h in
          subst Inv {x = (bind_apple m' i c' is_new j l a).after} (ground arith) (
            bind_apple-Inv m' i j c' is_new l a v' (get_elem?-set_at m.connections i c' at) noted.0
              free offer.0 offer.1)
    ]

pub Found-cases {ℓ} :
    {A : Type ℓ} (f : Found A) → ((e : ObserveResult) × (f ≡ refused e)) ⊎ ((x : A) × (f ≡ found x))
Found-cases (found x) = inr (x, refl)
Found-cases (refused e) = inl (e, refl)

observe_locked-Inv :
    (m : Manager) (id : ℕ) (r : Request) (apple : Option Bytes)
    → Inv m
    → Inv (observe_locked m id r apple).after
unfolding observe_locked
observe_locked-Inv m id r apple v =
    let k = classify_request r apple in
    elim (Found-cases (choose_connection m id k)) [
      | inl (e, p) ↦ subst Inv {x = m} (ground arith) v
      | inr ((i, c, is_new), p) ↦
          let (at, ch) = choose_connection-Chosen m id k p in
          elim (Found-cases (choose_logical m c apple)) [
            | inl (e, q) ↦ subst Inv {x = m} (ground arith) v
            | inr (logical, q) ↦
                subst Inv {x = (commit m id r apple k (i, c, is_new) logical).after} (ground arith)
                  (commit-Inv m id r apple k i c is_new logical v at ch q)
          ]
    ]

observe_header-Inv :
    (m : Manager) (id : ℕ) (r : Request) (apple : Option Bytes)
    → Inv m
    → Inv (observe_header m id r apple).after
unfolding observe_header
observe_header-Inv m id r none v = observe_locked-Inv m id r none v
observe_header-Inv m id r (some a) v =
    elim (Bool-cases (valid_apple_session_id a && not r.has_cseq)) [
      | inl fine ↦
          subst Inv {x = (observe_locked m id r (some a)).after} (ground arith)
            (observe_locked-Inv m id r (some a) v)
      | inr bad ↦ subst Inv {x = m} (ground arith) v
    ]

-- Every request, accepted or refused, keeps the tables well formed.
pub observe-Inv : (m : Manager) (id : ℕ) (r : Request) → Inv m → Inv (observe m id r).after
unfolding observe
observe-Inv m id r v = elim (Bool-cases (id == 0)) [
  | inl bad ↦ subst Inv {x = m} (ground arith) v
  | inr fine ↦
      subst Inv {x = (observe_header m id r (header_value r.headers apple_session_header)).after}
        (ground arith) (observe_header-Inv m id r _ v)
]
