-- ===== src/Airplay/LogicalSession/Lookup.antt =====
-- What the searches of source/protocol/airplay/protocol/logical_session.c find in well-formed tables.
use nx_cast.Base.{ℕ, ◌<◌, ◌≡◌, refl, true, false, not, Option, some, none, arith, get_elem?}
use nx_cast.Base.Slots.{weigh, weigh_le, weigh_single, find_slot-some, weigh_of_none}
use nx_cast.Base.Text.{Bytes, bytes_eq_iff}
use nx_cast.Airplay.LogicalSession.Entries.{
  Connection, Logical, Manager, find_connection, find_free_connection, find_logical_by_apple_id,
  find_logical_by_id, find_free_logical, has_connection_id, has_logical_id, has_apple_id,
}
use nx_cast.Airplay.LogicalSession.Invariant.{
  Inv, refers, counts, references, counted, with_id, with_apple_id, with_connection_id,
}

module _ (m : Manager) where
  pub find_connection-some :
      (id : ℕ) {i : ℕ} {c : Connection}
      → find_connection m id ≡ some (i, c)
      → (get_elem? m.connections i ≡ some c) × (c.used ≡ true) × (c.connection_id ≡ id)
  unfolding find_connection
  find_connection-some id h = ground (arith, find_slot-some (has_connection_id id) m.connections h)

  pub find_connection-none :
      (id : ℕ) → find_connection m id ≡ none → weigh (with_connection_id id) m.connections ≡ 0
  unfolding find_connection
  find_connection-none id =
      weigh_of_none (has_connection_id id) (with_connection_id id) m.connections (λ c e. rw e)

  pub find_free_connection-some :
      {i : ℕ} {c : Connection}
      → find_free_connection m ≡ some (i, c)
      → (get_elem? m.connections i ≡ some c) × (c.used ≡ false)
  unfolding find_free_connection
  find_free_connection-some h =
      ground (arith, find_slot-some (λ (c : Connection). not c.used) m.connections h)

  pub find_logical_by_id-some :
      (id : ℕ) {j : ℕ} {l : Logical}
      → find_logical_by_id m id ≡ some (j, l)
      → (get_elem? m.logical_sessions j ≡ some l) × (l.used ≡ true) × (l.logical_session_id ≡ id)
  unfolding find_logical_by_id
  find_logical_by_id-some id h =
      ground (arith, find_slot-some (has_logical_id id) m.logical_sessions h)

  pub find_logical_by_id-none :
      (id : ℕ) → find_logical_by_id m id ≡ none → weigh (with_id id) m.logical_sessions ≡ 0
  unfolding find_logical_by_id
  find_logical_by_id-none id =
      weigh_of_none (has_logical_id id) (with_id id) m.logical_sessions (λ l e. rw e)

  -- A session that is not found has no count.
  counted_of_none : (id : ℕ) → find_logical_by_id m id ≡ none → counted id m ≡ 0
  unfolding find_logical_by_id
  counted_of_none id =
      weigh_of_none (has_logical_id id) (counts id) m.logical_sessions (λ l e. rw e)

  pub find_logical_by_apple_id-some :
      (a : Bytes) {j : ℕ} {l : Logical}
      → find_logical_by_apple_id m a ≡ some (j, l)
      → (get_elem? m.logical_sessions j ≡ some l) × (l.used ≡ true) × (l.apple_session_id ≡ a)
  unfolding find_logical_by_apple_id
  find_logical_by_apple_id-some a {l = l} h = ground (
    arith,
    find_slot-some (has_apple_id a) m.logical_sessions h,
    bytes_eq_iff l.apple_session_id a,
  )

  pub find_logical_by_apple_id-none :
      (a : Bytes)
      → find_logical_by_apple_id m a ≡ none
      → weigh (with_apple_id a) m.logical_sessions ≡ 0
  unfolding find_logical_by_apple_id
  find_logical_by_apple_id-none a =
      weigh_of_none (has_apple_id a) (with_apple_id a) m.logical_sessions (λ l e. rw e)

  pub find_free_logical-some :
      {j : ℕ} {l : Logical}
      → find_free_logical m ≡ some (j, l)
      → (get_elem? m.logical_sessions j ≡ some l) × (l.used ≡ false)
  unfolding find_free_logical
  find_free_logical-some h =
      ground (arith, find_slot-some (λ (l : Logical). not l.used) m.logical_sessions h)

  -- The session found under an id counts exactly the connections bound to that id.
  pub connection_count-references :
      (id : ℕ) {j : ℕ} {l : Logical}
      → Inv m
      → find_logical_by_id m id ≡ some (j, l)
      → l.connection_count ≡ references id m
  connection_count-references id {j} {l} v h =
      let at = find_logical_by_id-some id h in
      let single =
        weigh_single (with_id id) (counts id) m.logical_sessions j {x = l} (λ y z. ground arith)
          (v.unique_id id) at.0 (ground arith) in
      ground (arith, single, v.balanced id)

  -- A bound connection finds its session, which counts it.
  pub bound-found :
      (i : ℕ) {c : Connection}
      → Inv m
      → get_elem? m.connections i ≡ some c
      → c.used ≡ true
      → c.logical_session_bound ≡ true
      → (j : ℕ) × (l : Logical) × (find_logical_by_id m c.logical_session_id ≡ some (j, l))
        × (0 < l.connection_count)
  bound-found i {c} v at used bound = go (find_logical_by_id m c.logical_session_id) refl
    where
      some_reference : 0 < references c.logical_session_id m
      some_reference = ground (arith, weigh_le (refers c.logical_session_id) m.connections i at)

      go :
          (o : Option (ℕ × Logical))
          → find_logical_by_id m c.logical_session_id ≡ o
          → (j : ℕ) × (l : Logical) × (find_logical_by_id m c.logical_session_id ≡ some (j, l))
            × (0 < l.connection_count)
      go none e =
          absurd
            (omega (arith, some_reference, counted_of_none _ e, v.balanced c.logical_session_id))
      go (some (j, l)) e =
          (j, l, e, omega (arith, some_reference, connection_count-references _ v e))
