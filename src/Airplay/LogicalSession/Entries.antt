-- ===== src/Airplay/LogicalSession/Entries.antt =====
-- The tables of source/protocol/airplay/protocol/logical_session.c and its helpers on them. A
-- pointer into a table is an index with the entry that stands there.
use nx_cast.Base.{
  ℕ, zero, suc, ◌+◌, ◌-◌, Bool, true, false, not, ◌&&◌, ◌||◌, Option, none, some, List, ltb, ◌==◌,
  if◌then◌else◌, set, replicate, u32, u64,
}
use nx_cast.Base.Slots.{find_slot}
use nx_cast.Base.Text.{Bytes, codes, bytes_eq}
use nx_cast.Airplay.LogicalSession.Rtsp.{ConnectionKind, unknown}

pub record Connection : Type 0 where
  pub connection_id : ℕ  -- uint64_t
  pub logical_session_id : ℕ  -- uint64_t
  pub kind : ConnectionKind
  pub client_id : Bytes
  pub client_id_bound : Bool
  pub logical_session_bound : Bool
  pub used : Bool

pub record Logical : Type 0 where
  pub apple_session_id : Bytes
  pub logical_session_id : ℕ  -- uint64_t
  pub connection_count : ℕ  -- uint32_t
  pub media_reference_count : ℕ  -- uint32_t
  pub client_id : Bytes
  pub client_id_bound : Bool
  pub transport_terminated : Bool
  pub used : Bool

abbrev pub client_id_size : ℕ
client_id_size = 32

abbrev pub max_connections : ℕ
max_connections = 8

abbrev pub max_logical_sessions : ℕ
max_logical_sessions = 8

-- What `memset(entry, 0, sizeof(*entry))` leaves.
abbrev pub zero_connection : Connection
zero_connection = record {
  connection_id = 0;
  logical_session_id = 0;
  kind = unknown;
  client_id = replicate client_id_size 0;
  client_id_bound = false;
  logical_session_bound = false;
  used = false;
}

abbrev pub zero_logical : Logical
zero_logical = record {
  apple_session_id = codes "";
  logical_session_id = 0;
  connection_count = 0;
  media_reference_count = 0;
  client_id = replicate client_id_size 0;
  client_id_bound = false;
  transport_terminated = false;
  used = false;
}

pub record Manager : Type 0 where
  pub connections : List Connection
  pub logical_sessions : List Logical
  pub next_logical_session_id : ℕ  -- uint64_t

abbrev pub first_logical_id : ℕ
first_logical_id = 0x8000000000000000

-- `airplay_session_manager_create`, where memory and the mutex are to be had.
unfoldable pub create : Manager
create = record {
  connections = replicate max_connections zero_connection;
  logical_sessions = replicate max_logical_sessions zero_logical;
  next_logical_session_id = first_logical_id;
}

abbrev pub set_connection : Manager → ℕ → Connection → Manager
set_connection m i c = record m { connections = set m.connections i c }

abbrev pub set_logical : Manager → ℕ → Logical → Manager
set_logical m j l = record m { logical_sessions = set m.logical_sessions j l }

abbrev pub has_connection_id : ℕ → Connection → Bool
has_connection_id id c = c.used && c.connection_id == id

abbrev pub has_logical_id : ℕ → Logical → Bool
has_logical_id id l = l.used && l.logical_session_id == id

abbrev pub has_apple_id : Bytes → Logical → Bool
has_apple_id a l = l.used && bytes_eq l.apple_session_id a

unfoldable pub find_connection : Manager → ℕ → Option (ℕ × Connection)
unfolding find_slot
find_connection m id = find_slot (has_connection_id id) m.connections

unfoldable pub find_free_connection : Manager → Option (ℕ × Connection)
unfolding find_slot
find_free_connection m = find_slot (λ c. not c.used) m.connections

unfoldable pub find_logical_by_apple_id : Manager → Bytes → Option (ℕ × Logical)
unfolding find_slot
find_logical_by_apple_id m a = find_slot (has_apple_id a) m.logical_sessions

unfoldable pub find_logical_by_id : Manager → ℕ → Option (ℕ × Logical)
unfolding find_slot
find_logical_by_id m id = find_slot (has_logical_id id) m.logical_sessions

unfoldable pub find_free_logical : Manager → Option (ℕ × Logical)
unfolding find_slot
find_free_logical m = find_slot (λ l. not l.used) m.logical_sessions

-- The entry after `release_logical_if_unreferenced`.
unfoldable pub release_logical_if_unreferenced : Logical → Logical
release_logical_if_unreferenced l =
    if l.connection_count == 0 && l.media_reference_count == 0 then zero_logical else l

-- `previous->connection_count--`, where the previous session is found and counts anything.
drop_connection : Manager → ℕ → Manager
unfolding find_logical_by_id
drop_connection m id = elim (find_logical_by_id m id) [
  | none ↦ m
  | some (k, previous) ↦
      if ltb 0 previous.connection_count
      then set_logical m k (record previous { connection_count = previous.connection_count - 1 })
      else m
]

-- The previous session has another id than `l`, so its entry is another one.
unfoldable pub bind_connection :
    Manager → ℕ → Connection → ℕ → Logical → Manager × Connection × Logical
unfolding drop_connection
bind_connection m i c j l =
    if c.logical_session_bound && c.logical_session_id == l.logical_session_id
    then (m, c, l)
    else let m' = if c.logical_session_bound then drop_connection m c.logical_session_id else m in
      let c' = record c {
        logical_session_id = l.logical_session_id;
        logical_session_bound = true;
      } in
      let inherits = c.client_id_bound && not l.client_id_bound in
      let l' = record l {
        connection_count = u32 (l.connection_count + 1);
        client_id = if inherits then c.client_id else l.client_id;
        client_id_bound = l.client_id_bound || inherits;
      } in
      (set_logical (set_connection m' i c') j l', c', l')

-- The counter after it was read: wrapped to 64 bits, and kept in the upper half.
abbrev pub next_id : ℕ → ℕ
next_id n = let n' = u64 (n + 1) in if ltb n' first_logical_id then first_logical_id else n'

-- The loop of `allocate_logical_id` with the attempts left: the id, 0 where none was found, and the
-- counter.
unfoldable pub allocate_from : ℕ → List Logical → ℕ → ℕ × ℕ
unfolding find_slot
allocate_from zero ls next = (0, next)
allocate_from (suc attempts) ls next =
    let rest = allocate_from attempts ls (next_id next) in
    let taken : Bool = elim (find_slot (has_logical_id next) ls) [ none ↦ false | some _ ↦ true ] in
    if not (next == 0) && not taken then (next, next_id next) else rest

unfoldable pub allocate_logical_id : Manager → ℕ × ℕ
unfolding allocate_from
allocate_logical_id m =
    allocate_from (suc max_logical_sessions) m.logical_sessions m.next_logical_session_id
