-- ===== src/Airplay/LogicalSession/ObserveInvariant.antt =====
-- `airplay_session_manager_observe` of source/protocol/airplay/protocol/logical_session.c keeps the
-- tables well formed.
use nx_cast.Base.{
  ℕ, ◌≤◌, ◌<◌, ◌≡◌, ◌⊎◌, inl, inr, subst, Bool, true, false, some, none, arith, get_elem?,
  Option-cases, u64_mod,
}
use nx_cast.Base.Slots.{weigh_le, weigh_bound, All-get}
use nx_cast.Base.Text.{Bytes}
use nx_cast.Airplay.LogicalSession.Rtsp.{ConnectionKind}
use nx_cast.Airplay.LogicalSession.Entries.{
  Connection, Logical, Manager, zero_connection, set_connection, set_logical, find_connection,
  find_free_connection, find_logical_by_apple_id, find_free_logical, bind_connection,
  first_logical_id,
}
use nx_cast.Airplay.LogicalSession.Observe.{
  found, choose_connection, choose_logical, note_connection,
}
use nx_cast.Airplay.LogicalSession.Invariant.{
  Inv, IsClean, IsKept, refers, counts, set_connection-Inv, set_both-Inv,
}
use nx_cast.Airplay.LogicalSession.Lookup.{
  find_connection-some, find_connection-none, find_free_connection-some,
  find_logical_by_apple_id-some, find_free_logical-some,
}
use nx_cast.Airplay.LogicalSession.ReleaseInvariant.{update_connection-Inv}

-- The entry that the request is noted in: in use under the id, or free while no entry has the id.
abbrev pub Chosen : Manager → ℕ → Connection → Bool → Type 0
Chosen m id c is_new =
    ((is_new ≡ false) × (c.used ≡ true) × (c.connection_id ≡ id))
    ⊎ ((is_new ≡ true) × (c.used ≡ false) × (find_connection m id ≡ none))

pub choose_connection-Chosen :
    (m : Manager) (id : ℕ) (k : ConnectionKind) {i : ℕ} {c : Connection} {is_new : Bool}
    → choose_connection m id k ≡ found (i, c, is_new)
    → (get_elem? m.connections i ≡ some c) × Chosen m id c is_new
unfolding choose_connection
choose_connection-Chosen m id k h = elim (Option-cases (find_connection m id)) [
  | inr ((n, d), e) ↦ ground (arith, find_connection-some m id e)
  | inl e ↦ elim (Option-cases (find_free_connection m)) [
    | inl f ↦ absurd (ground arith)
    | inr ((n, d), f) ↦ ground (arith, find_free_connection-some m f)
  ]
]

-- The session that an unbound connection is bound to: in use under the Apple id, or free while no
-- session has that id.
abbrev pub Offered : Manager → Bytes → Logical → Type 0
Offered m a l =
    ((l.used ≡ true) × (l.apple_session_id ≡ a))
    ⊎ ((l.used ≡ false) × (find_logical_by_apple_id m a ≡ none))

pub choose_logical-Offered :
    (m : Manager) (c : Connection) (a : Bytes) {j : ℕ} {l : Logical}
    → c.logical_session_bound ≡ false
    → choose_logical m c (some a) ≡ found (some (j, l))
    → (get_elem? m.logical_sessions j ≡ some l) × Offered m a l
unfolding choose_logical
choose_logical-Offered m c a b h = elim (Option-cases (find_logical_by_apple_id m a)) [
  | inr ((n, d), e) ↦ ground (arith, find_logical_by_apple_id-some m a e)
  | inl e ↦ elim (Option-cases (find_free_logical m)) [
    | inl f ↦ absurd (ground arith)
    | inr ((n, d), f) ↦ ground (arith, find_free_logical-some m f)
  ]
]

pub noted-Inv :
    (m : Manager) (id i : ℕ) (c : Connection) (is_new : Bool) (k : ConnectionKind)
    → Inv m
    → get_elem? m.connections i ≡ some c
    → Chosen m id c is_new
    → Inv (set_connection m i (note_connection c is_new id k))
unfolding note_connection
noted-Inv m id i c is_new k v at (inl (old, used, same)) =
    update_connection-Inv m v i c (note_connection c is_new id k) at used (ground arith)
      (ground arith) (ground arith) (ground arith)
noted-Inv m id i c is_new k v at (inr (new, free, absent)) =
    set_connection-Inv m i c (note_connection c is_new id k) v at (λ n. ground arith)
      (λ n. ground (arith, v.unique_connection_id n, find_connection-none m id absent))
      (record { unbound = λ e. ground arith; no_client = λ e. ground arith })

-- What the noted entry is.
pub note_connection-used :
    (m : Manager) (id : ℕ) (c : Connection) (is_new : Bool) (k : ConnectionKind)
    → Chosen m id c is_new
    → IsClean c
    → ((note_connection c is_new id k).used ≡ true)
      × ((note_connection c is_new id k).connection_id ≡ id)
      × ((note_connection c is_new id k).logical_session_bound ≡ c.logical_session_bound)
unfolding note_connection
note_connection-used m id c is_new k ch clean = ground (arith, clean.unbound)

pub counter-Inv :
    (m : Manager) (n : ℕ)
    → Inv m
    → first_logical_id ≤ n
    → n < u64_mod
    → Inv (record m { next_logical_session_id = n })
counter-Inv m n v lo hi = record {
  connection_slots = v.connection_slots;
  logical_slots = v.logical_slots;
  balanced = v.balanced;
  unique_id = v.unique_id;
  unique_apple_id = v.unique_apple_id;
  unique_connection_id = v.unique_connection_id;
  clean = v.clean;
  kept = v.kept;
  counter_high = lo;
  counter_fits = hi;
}

pub undo-Inv :
    (m : Manager) (i : ℕ) (c : Connection)
    → Inv m
    → get_elem? m.connections i ≡ some c
    → c.logical_session_bound ≡ false
    → Inv (set_connection m i zero_connection)
undo-Inv m i c v at free =
    set_connection-Inv m i c zero_connection v at (λ n. ground arith)
      (λ n. ground (arith, v.unique_connection_id n)) (ground arith)

-- A session counts at most the eight connections, so its count does not wrap.
connection_count_small :
    (m : Manager) (j : ℕ) (l : Logical)
    → Inv m
    → get_elem? m.logical_sessions j ≡ some l
    → l.used ≡ true
    → l.connection_count ≤ 8
connection_count_small m j l v at used = ground (
  arith,
  weigh_le (counts l.logical_session_id) m.logical_sessions j at,
  v.balanced l.logical_session_id,
  weigh_bound (refers l.logical_session_id) (λ c. ground arith) m.connections,
  v.connection_slots,
)

-- Binding a connection to a session in use.
pub bind_used-Inv :
    (m : Manager) (i j : ℕ) (c : Connection) (l : Logical)
    → Inv m
    → get_elem? m.connections i ≡ some c
    → c.used ≡ true
    → c.logical_session_bound ≡ false
    → get_elem? m.logical_sessions j ≡ some l
    → l.used ≡ true
    → Inv (bind_connection m i c j l).0
unfolding bind_connection
bind_used-Inv m i j c l v at used free at_l used_l =
    let (m', c', l') = bind_connection m i c j l in
    let small = connection_count_small m j l v at_l used_l in
    subst Inv {x = set_logical (set_connection m i c') j l'} (ground arith) (
      set_both-Inv m i j c c' l l' v at at_l (λ n. ground arith)
        (λ n. ground (arith, v.unique_connection_id n)) (λ n. ground (arith, v.unique_id n))
        (λ a. ground (arith, v.unique_apple_id a))
        (record { unbound = λ e. ground arith; no_client = λ e. ground arith })
        (record {
          needed = λ e. ground arith;
          has_id = λ e. ground (arith, (All-get IsKept m.logical_sessions j v.kept at_l).has_id);
        }))
