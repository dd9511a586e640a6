-- ===== src/Airplay/LogicalSession/Observe.antt =====
-- `airplay_session_manager_observe` of source/protocol/airplay/protocol/logical_session.c, as it runs
-- under the manager's mutex.
use nx_cast.Base.{ℕ, Bool, true, false, not, ◌&&◌, Option, none, some, ◌==◌, if◌then◌else◌}
use nx_cast.Base.Text.{Bytes, bytes_eq}
use nx_cast.Airplay.LogicalSession.Rtsp.{
  ConnectionKind, unknown, kind_eq, Request, header_value, apple_session_header,
  valid_apple_session_id, requires_logical_binding, classify_request,
}
use nx_cast.Airplay.LogicalSession.Entries.{
  Connection, Logical, Manager, zero_connection, zero_logical, set_connection, set_logical,
  find_connection, find_free_connection, find_logical_by_apple_id, find_logical_by_id,
  find_free_logical, bind_connection, allocate_logical_id,
}

pub data ObserveResult : Type 0 where
  ok invalid_argument invalid_session_id conflict unbound_media capacity : ObserveResult

pub record Snapshot : Type 0 where
  pub connection_id : ℕ
  pub logical_session_id : ℕ
  pub connection_kind : ConnectionKind
  pub logical_connection_count : ℕ
  pub logical_session_bound : Bool

abbrev pub zero_snapshot : Snapshot
zero_snapshot = record {
  connection_id = 0;
  logical_session_id = 0;
  connection_kind = unknown;
  logical_connection_count = 0;
  logical_session_bound = false;
}

pub record Observed : Type 0 where
  pub result : ObserveResult
  pub after : Manager
  pub snapshot : Snapshot

-- A return with an error: the snapshot was zeroed first.
abbrev pub refuse : ObserveResult → Manager → Observed
refuse r m = record { result = r; after = m; snapshot = zero_snapshot }

unfoldable pub fill_snapshot : Connection → Option Logical → Snapshot
fill_snapshot c logical = record {
  connection_id = c.connection_id;
  logical_session_id = c.logical_session_id;
  connection_kind = c.kind;
  logical_connection_count = elim logical [ none ↦ 1 | some l ↦ l.connection_count ];
  logical_session_bound = c.logical_session_bound;
}

-- A step that finds an entry, or returns from the operation with an error.
pub data Found {ℓ} (A : Type ℓ) : Type ℓ where
  found : A → Found A
  refused : ObserveResult → Found A

-- The connection of the request: index, entry, and whether it is new.
unfoldable pub choose_connection : Manager → ℕ → ConnectionKind → Found (ℕ × Connection × Bool)
unfolding kind_eq
choose_connection m id observed = elim (find_connection m id) [
  | none ↦ elim (find_free_connection m) [
    | none ↦ refused capacity
    | some (i, c) ↦ found (i, c, true)
  ]
  | some (i, c) ↦
      if not (kind_eq observed unknown)
        && (not (kind_eq c.kind unknown) && not (kind_eq c.kind observed))
      then refused conflict
      else found (i, c, false)
]

-- The logical session of the request: the one that the connection is bound to, the one with the
-- Apple id, a free entry for that id, or none.
unfoldable pub choose_logical : Manager → Connection → Option Bytes → Found (Option (ℕ × Logical))
choose_logical m c (some apple) =
    if c.logical_session_bound
    then elim (find_logical_by_id m c.logical_session_id) [
      | none ↦ refused conflict
      | some (j, l) ↦
          if bytes_eq l.apple_session_id apple then found (some (j, l)) else refused conflict
    ]
    else elim (find_logical_by_apple_id m apple) [
      | some (j, l) ↦ found (some (j, l))
      | none ↦ elim (find_free_logical m) [
        | none ↦ refused capacity
        | some (j, l) ↦ found (some (j, l))
      ]
    ]
choose_logical m c none =
    if c.logical_session_bound
    then elim (find_logical_by_id m c.logical_session_id) [
      | none ↦ refused conflict
      | some (j, l) ↦ found (some (j, l))
    ]
    else found none

-- The connection entry with the request noted in it.
unfoldable pub note_connection : Connection → Bool → ℕ → ConnectionKind → Connection
note_connection c is_new id observed =
    if is_new
    then record zero_connection {
      used = true;
      connection_id = id;
      logical_session_id = id;
      kind = observed;
    }
    else if kind_eq c.kind unknown
    then record c { kind = observed }
    else c

-- The error returns behind the registration clear a new connection again.
abbrev undo_new : Manager → ℕ → Bool → Manager
undo_new m i is_new = if is_new then set_connection m i zero_connection else m

-- The logical entry to bind to: `l` itself if it is in use, else a new session with its own id.
unfoldable pub open_logical : Manager → ℕ → Logical → Bytes → Manager × Option Logical
open_logical m j l apple =
    if l.used
    then (m, some l)
    else let (id, next) = allocate_logical_id m in
      let m' = record m { next_logical_session_id = next } in
      if id == 0 then (set_logical m' j zero_logical, none) else (
        m',
        some (record zero_logical {
          logical_session_id = id;
          apple_session_id = apple;
          used = true;
        }),
      )

-- The block under `if (apple_session_id && !connection->logical_session_bound)`.
unfoldable pub bind_apple : Manager → ℕ → Connection → Bool → ℕ → Logical → Bytes → Observed
unfolding open_logical bind_connection
bind_apple m i c is_new j l apple =
    if c.client_id_bound && (l.client_id_bound && not (bytes_eq c.client_id l.client_id))
    then refuse conflict (undo_new m i is_new)
    else let (m', opened) = open_logical m j l apple in
      elim opened [
        | none ↦ refuse capacity (undo_new m' i is_new)
        | some l' ↦
            let (m'', c'', l'') = bind_connection m' i c j l' in
            record { result = ok; after = m''; snapshot = fill_snapshot c'' (some l'') }
      ]

-- Behind the choices: the check for media without a session, the registration, and the binding.
unfoldable pub commit :
    Manager
    → ℕ
    → Request
    → Option Bytes
    → ConnectionKind
    → ℕ × Connection × Bool
    → Option (ℕ × Logical)
    → Observed
commit m id r apple observed (i, c, is_new) none =
    if requires_logical_binding r
    then refuse unbound_media m
    else let c' = note_connection c is_new id observed in
      record { result = ok; after = set_connection m i c'; snapshot = fill_snapshot c' none }
commit m id r (some apple) observed (i, c, is_new) (some (j, l)) =
    let c' = note_connection c is_new id observed in
    let m' = set_connection m i c' in
    if not c'.logical_session_bound
    then bind_apple m' i c' is_new j l apple
    else record { result = ok; after = m'; snapshot = fill_snapshot c' (some l) }
commit m id r none observed (i, c, is_new) (some (j, l)) =
    let c' = note_connection c is_new id observed in
    record { result = ok; after = set_connection m i c'; snapshot = fill_snapshot c' (some l) }

-- What runs under the mutex.
unfoldable pub observe_locked : Manager → ℕ → Request → Option Bytes → Observed
observe_locked m id r apple = elim (choose_connection m id (classify_request r apple)) [
  | refused e ↦ refuse e m
  | found (i, c, is_new) ↦ elim (choose_logical m c apple) [
    | refused e ↦ refuse e m
    | found logical ↦ commit m id r apple (classify_request r apple) (i, c, is_new) logical
  ]
]

-- `airplay_session_manager_observe`, by the value of the Apple header.
unfoldable pub observe_header : Manager → ℕ → Request → Option Bytes → Observed
observe_header m id r none = observe_locked m id r none
observe_header m id r (some apple) =
    if not (valid_apple_session_id apple)
    then refuse invalid_session_id m
    else if r.has_cseq
    then refuse conflict m
    else observe_locked m id r (some apple)

unfoldable pub observe : Manager → ℕ → Request → Observed
observe m id r =
    if id == 0
    then refuse invalid_argument m
    else observe_header m id r (header_value r.headers apple_session_header)
