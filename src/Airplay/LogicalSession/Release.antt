-- ===== src/Airplay/LogicalSession/Release.antt =====
-- The other operations of source/protocol/airplay/protocol/logical_session.c: closing a connection,
-- binding a client, marking a teardown, and the references that media hold.
use nx_cast.Base.{
  ℕ, suc, ◌+◌, ◌-◌, Bool, true, false, not, ◌&&◌, ◌||◌, Option, none, some, List, [], ◌∷◌, ltb,
  ◌==◌, if◌then◌else◌,
}
use nx_cast.Base.Text.{Bytes, bytes_eq}
use nx_cast.Airplay.LogicalSession.Rtsp.{raop, kind_eq}
use nx_cast.Airplay.LogicalSession.Entries.{
  Connection, Logical, Manager, zero_connection, set_connection, set_logical, find_connection,
  find_logical_by_id, release_logical_if_unreferenced,
}

pub record CloseResult : Type 0 where
  pub connection_id : ℕ
  pub logical_session_id : ℕ
  pub logical_session_bound : Bool
  pub last_logical_connection : Bool
  pub terminal_media_session_id : ℕ

abbrev pub closed_of : ℕ → Connection → CloseResult
closed_of id c = record {
  connection_id = id;
  logical_session_id = c.logical_session_id;
  logical_session_bound = c.logical_session_bound;
  last_logical_connection = false;
  terminal_media_session_id = 0;
}

-- The logical session of a closed connection gives up the connection.
unfoldable pub leave_logical : Manager → CloseResult → ℕ → Logical → Manager × CloseResult
leave_logical m r j l =
    if ltb 0 l.connection_count
    then (let l' = record l { connection_count = l.connection_count - 1 } in
        if l'.connection_count == 0
        then (
          set_logical m j (release_logical_if_unreferenced l'),
          record r {
            last_logical_connection = true;
            terminal_media_session_id =
                if l'.transport_terminated && ltb 0 l'.media_reference_count
                then l'.logical_session_id
                else 0;
          },
        )
        else (set_logical m j l', r))
    else (m, r)

unfoldable pub close_connection : Manager → ℕ → ℕ → Connection → Manager × CloseResult
unfolding leave_logical
close_connection m id i c =
    let unchanged : Manager × CloseResult = (m, closed_of id c) in
    let left : Manager × CloseResult =
      (if c.logical_session_bound
        then elim (find_logical_by_id m c.logical_session_id) [
          | none ↦ unchanged
          | some (j, l) ↦ leave_logical m (closed_of id c) j l
        ]
        else unchanged) in
    (set_connection left.0 i zero_connection, left.1)

-- `airplay_session_manager_close`; `none` is the result false.
unfoldable pub close : Manager → ℕ → Manager × Option CloseResult
unfolding close_connection
close m id = if id == 0 then (m, none) else elim (find_connection m id) [
  | none ↦ (m, none)
  | some (i, c) ↦ let (m', r) = close_connection m id i c in (m', some r)
]

-- `airplay_session_manager_bind_client`.
unfoldable pub bind_client : Manager → ℕ → Bytes → Manager × Bool
bind_client m id client = if id == 0 then (m, false) else elim (find_connection m id) [
  | none ↦ (m, false)
  | some (i, c) ↦
      if c.client_id_bound && not (bytes_eq c.client_id client)
      then (m, false)
      else (let m' = set_connection m i (record c { client_id = client; client_id_bound = true }) in
          if c.logical_session_bound
          then elim (find_logical_by_id m c.logical_session_id) [
            | none ↦ (m, false)
            | some (j, l) ↦
                if l.client_id_bound
                then (if bytes_eq l.client_id client then (m', true) else (m, false))
                else (
                  set_logical m' j (record l { client_id = client; client_id_bound = true }),
                  true,
                )
          ]
          else (m', true))
]

-- A logical session of the client that still holds media.
abbrev pub holds_media_of : Bytes → Logical → Bool
holds_media_of client l =
    l.used
    && (l.client_id_bound && (not (l.media_reference_count == 0) && bytes_eq l.client_id client))

pub data Match : Type 0 where
  nothing several : Match
  one : ℕ → Logical → Match

-- The loop of `mark_transport_teardown`: the match so far, the index, and the entries left.
unfoldable pub scan_matching : Bytes → Match → ℕ → List Logical → Match
scan_matching client so_far j [] = so_far
scan_matching client nothing j (l ∷ ls) =
    scan_matching client (if holds_media_of client l then one j l else nothing) (suc j) ls
scan_matching client (one k first) j (l ∷ ls) =
    scan_matching client (if holds_media_of client l then several else one k first) (suc j) ls
scan_matching client several j (l ∷ ls) = several

-- `airplay_session_manager_mark_transport_teardown`: the flag, and the id of a session to end.
unfoldable pub mark_transport_teardown : Manager → ℕ → Manager × Bool × ℕ
unfolding kind_eq scan_matching
mark_transport_teardown m id = if id == 0 then (m, false, 0) else elim (find_connection m id) [
  | none ↦ (m, false, 0)
  | some (i, c) ↦
      if not (kind_eq c.kind raop) || not c.client_id_bound
      then (m, false, 0)
      else elim (scan_matching c.client_id nothing 0 m.logical_sessions) [
        | several ↦ (m, false, 0)
        | nothing ↦ (m, true, 0)
        | one j l ↦ (
          set_logical m j (record l { transport_terminated = true }),
          true,
          if l.connection_count == 0 then l.logical_session_id else 0,
        )
      ]
]

-- `airplay_session_manager_retain_media`; UINT32_MAX is 4294967295.
unfoldable pub retain_media : Manager → ℕ → Manager × Bool
retain_media m id = if id == 0 then (m, false) else elim (find_logical_by_id m id) [
  | none ↦ (m, false)
  | some (j, l) ↦
      if ltb l.media_reference_count 4294967295
      then (
        set_logical m j (record l { media_reference_count = l.media_reference_count + 1 }),
        true,
      )
      else (m, false)
]

-- `airplay_session_manager_release_media`.
unfoldable pub release_media : Manager → ℕ → Manager × Bool
release_media m id = if id == 0 then (m, false) else elim (find_logical_by_id m id) [
  | none ↦ (m, false)
  | some (j, l) ↦
      if ltb 0 l.media_reference_count
      then (
        set_logical m j (
            release_logical_if_unreferenced
              (record l { media_reference_count = l.media_reference_count - 1 })),
        true,
      )
      else (m, false)
]
