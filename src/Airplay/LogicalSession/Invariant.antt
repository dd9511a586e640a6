-- ===== src/Airplay/LogicalSession/Invariant.antt =====
-- What holds of the tables of source/protocol/airplay/protocol/logical_session.c between two calls,
-- and how a write to an entry keeps it.
use nx_cast.Base.{
  ℕ, ◌+◌, ◌≤◌, ◌<◌, ◌≡◌, ◌≢◌, refl, ◌∙◌, Bool, true, false, ◌&&◌, some, arith, ◌==◌, if◌then◌else◌,
  length, length-set, get_elem?, u64_mod,
}
use nx_cast.Base.Slots.{one_if, weigh, weigh-set, All, All-set}
use nx_cast.Base.Text.{Bytes}
use nx_cast.Airplay.LogicalSession.Entries.{
  Connection, Logical, Manager, max_connections, max_logical_sessions, first_logical_id, create,
  set_connection, set_logical, has_connection_id, has_logical_id, has_apple_id,
}

abbrev pub is_bound_to : ℕ → Connection → Bool
is_bound_to id c = c.used && (c.logical_session_bound && c.logical_session_id == id)

abbrev pub refers : ℕ → Connection → ℕ
refers id c = one_if (is_bound_to id c)

abbrev pub counts : ℕ → Logical → ℕ
counts id l = if has_logical_id id l then l.connection_count else 0

-- The connections bound to a session, and the count that the session keeps of them.
abbrev pub references : ℕ → Manager → ℕ
references id m = weigh (refers id) m.connections

abbrev pub counted : ℕ → Manager → ℕ
counted id m = weigh (counts id) m.logical_sessions

abbrev pub with_id : ℕ → Logical → ℕ
with_id id l = one_if (has_logical_id id l)

abbrev pub with_apple_id : Bytes → Logical → ℕ
with_apple_id a l = one_if (has_apple_id a l)

abbrev pub with_connection_id : ℕ → Connection → ℕ
with_connection_id id c = one_if (has_connection_id id c)

-- A free entry is not bound to anything.
pub record IsClean (c : Connection) : Type 0 where
  pub unbound : c.used ≡ false → c.logical_session_bound ≡ false
  pub no_client : c.used ≡ false → c.client_id_bound ≡ false

-- A session in use has a connection or media to serve, and an id.
pub record IsKept (l : Logical) : Type 0 where
  pub needed : l.used ≡ true → 0 < l.connection_count + l.media_reference_count
  pub has_id : l.used ≡ true → l.logical_session_id ≢ 0

pub record Inv (m : Manager) : Type 0 where
  pub connection_slots : length m.connections ≡ max_connections
  pub logical_slots : length m.logical_sessions ≡ max_logical_sessions
  pub balanced : (id : ℕ) → counted id m ≡ references id m
  pub unique_id : (id : ℕ) → weigh (with_id id) m.logical_sessions ≤ 1
  pub unique_apple_id : (a : Bytes) → weigh (with_apple_id a) m.logical_sessions ≤ 1
  pub unique_connection_id : (id : ℕ) → weigh (with_connection_id id) m.connections ≤ 1
  pub clean : All IsClean m.connections
  pub kept : All IsKept m.logical_sessions
  pub counter_high : first_logical_id ≤ m.next_logical_session_id
  pub counter_fits : m.next_logical_session_id < u64_mod

pub create-Inv : Inv create
unfolding create weigh
create-Inv = record {
  connection_slots = refl;
  logical_slots = refl;
  balanced = λ id. refl;
  unique_id = λ id. omega arith;
  unique_apple_id = λ a. omega arith;
  unique_connection_id = λ id. omega arith;
  clean = ground arith;
  kept = ground arith;
  counter_high = omega arith;
  counter_fits = omega arith;
}

-- A write to a connection that keeps what it refers to.
pub set_connection-Inv :
    (m : Manager) (i : ℕ) (old new : Connection)
    → Inv m
    → get_elem? m.connections i ≡ some old
    → ((id : ℕ) → refers id new ≡ refers id old)
    → ((id : ℕ)
        → with_connection_id id new + weigh (with_connection_id id) m.connections
          ≤ 1 + with_connection_id id old)
    → IsClean new
    → Inv (set_connection m i new)
set_connection-Inv m i old new v at same names c = record {
  connection_slots = length-set m.connections i new ∙ v.connection_slots;
  logical_slots = v.logical_slots;
  balanced =
      λ id. omega (arith, weigh-set (refers id) m.connections i new at, v.balanced id, same id);
  unique_id = v.unique_id;
  unique_apple_id = v.unique_apple_id;
  unique_connection_id =
      λ id. omega (arith, weigh-set (with_connection_id id) m.connections i new at, names id);
  clean = All-set IsClean m.connections i v.clean c;
  kept = v.kept;
  counter_high = v.counter_high;
  counter_fits = v.counter_fits;
}

-- A write to a session that keeps its count of connections.
pub set_logical-Inv :
    (m : Manager) (j : ℕ) (old new : Logical)
    → Inv m
    → get_elem? m.logical_sessions j ≡ some old
    → ((id : ℕ) → counts id new ≡ counts id old)
    → ((id : ℕ) → with_id id new + weigh (with_id id) m.logical_sessions ≤ 1 + with_id id old)
    → ((a : Bytes)
        → with_apple_id a new + weigh (with_apple_id a) m.logical_sessions
          ≤ 1 + with_apple_id a old)
    → IsKept new
    → Inv (set_logical m j new)
set_logical-Inv m j old new v at same ids apples k = record {
  connection_slots = v.connection_slots;
  logical_slots = length-set m.logical_sessions j new ∙ v.logical_slots;
  balanced = λ id.
      omega (arith, weigh-set (counts id) m.logical_sessions j new at, v.balanced id, same id);
  unique_id = λ id. omega (arith, weigh-set (with_id id) m.logical_sessions j new at, ids id);
  unique_apple_id =
      λ a. omega (arith, weigh-set (with_apple_id a) m.logical_sessions j new at, apples a);
  unique_connection_id = v.unique_connection_id;
  clean = v.clean;
  kept = All-set IsKept m.logical_sessions j v.kept k;
  counter_high = v.counter_high;
  counter_fits = v.counter_fits;
}

-- Two writes that change the references and the counts alike.
pub set_both-Inv :
    (m : Manager) (i j : ℕ) (old new : Connection) (old_l new_l : Logical)
    → Inv m
    → get_elem? m.connections i ≡ some old
    → get_elem? m.logical_sessions j ≡ some old_l
    → ((id : ℕ) → counts id new_l + refers id old ≡ counts id old_l + refers id new)
    → ((id : ℕ)
        → with_connection_id id new + weigh (with_connection_id id) m.connections
          ≤ 1 + with_connection_id id old)
    → ((id : ℕ) → with_id id new_l + weigh (with_id id) m.logical_sessions ≤ 1 + with_id id old_l)
    → ((a : Bytes)
        → with_apple_id a new_l + weigh (with_apple_id a) m.logical_sessions
          ≤ 1 + with_apple_id a old_l)
    → IsClean new
    → IsKept new_l
    → Inv (set_logical (set_connection m i new) j new_l)
set_both-Inv m i j old new old_l new_l v at at_l same names ids apples c k = record {
  connection_slots = length-set m.connections i new ∙ v.connection_slots;
  logical_slots = length-set m.logical_sessions j new_l ∙ v.logical_slots;
  balanced = λ id. omega (
    arith,
    weigh-set (counts id) m.logical_sessions j new_l at_l,
    weigh-set (refers id) m.connections i new at,
    v.balanced id,
    same id,
  );
  unique_id = λ id. omega (arith, weigh-set (with_id id) m.logical_sessions j new_l at_l, ids id);
  unique_apple_id =
      λ a. omega (arith, weigh-set (with_apple_id a) m.logical_sessions j new_l at_l, apples a);
  unique_connection_id =
      λ id. omega (arith, weigh-set (with_connection_id id) m.connections i new at, names id);
  clean = All-set IsClean m.connections i v.clean c;
  kept = All-set IsKept m.logical_sessions j v.kept k;
  counter_high = v.counter_high;
  counter_fits = v.counter_fits;
}
