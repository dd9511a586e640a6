-- ===== src/Airplay/LogicalSession/Lifetime.antt =====
-- When a logical session of source/protocol/airplay/protocol/logical_session.c ends.
use nx_cast.Base.{
  ℕ, ◌+◌, ◌<◌, ◌≡◌, ◌≢◌, set-set, set_self, inl, inr, sym, ◌∙◌, subst, true, ◌&&◌, some, none,
  arith, ltb, if◌then◌else◌, get_elem?, set, Option-cases,
}
use nx_cast.Base.Slots.{weigh-set, All-get, find_slot, find_slot-none, find_slot-set}
use nx_cast.Airplay.LogicalSession.Entries.{
  Connection, Logical, Manager, zero_logical, set_logical, find_connection, find_logical_by_id,
  release_logical_if_unreferenced, has_logical_id,
}
use nx_cast.Airplay.LogicalSession.Release.{close, retain_media, release_media}
use nx_cast.Airplay.LogicalSession.Invariant.{Inv, IsKept, with_id, references}
use nx_cast.Airplay.LogicalSession.Lookup.{find_logical_by_id-some, connection_count-references}

-- Clearing the one entry with an id makes the id unknown.
cleared_absent :
    (m : Manager) (j : ℕ) (l : Logical)
    → Inv m
    → get_elem? m.logical_sessions j ≡ some l
    → l.used ≡ true
    → find_slot (has_logical_id l.logical_session_id) (set m.logical_sessions j zero_logical) ≡ none
cleared_absent m j l v at used =
    find_slot-none (has_logical_id l.logical_session_id) (set m.logical_sessions j zero_logical) (
      ground (
        arith,
        weigh-set (with_id l.logical_session_id) m.logical_sessions j zero_logical at,
        v.unique_id l.logical_session_id,
      ))

-- Closing the last connection of a session reports it as the last, and ends the session if no media
-- refer to it: its id is unknown from then on. While media refer to it the session stays, without a
-- connection; its id is reported for teardown exactly if its transport was terminated.
pub close_last_connection :
    (m : Manager) (id i j : ℕ) (c : Connection) (l : Logical)
    → Inv m
    → id ≢ 0
    → find_connection m id ≡ some (i, c)
    → c.logical_session_bound ≡ true
    → find_logical_by_id m c.logical_session_id ≡ some (j, l)
    → l.connection_count ≡ 1
    → let after = (close m id).0 in
      ((close m id).1
        ≡ some (record {
          connection_id = id;
          logical_session_id = l.logical_session_id;
          logical_session_bound = true;
          last_logical_connection = true;
          terminal_media_session_id =
              if l.transport_terminated && ltb 0 l.media_reference_count
              then l.logical_session_id
              else 0;
        }))
      × (l.media_reference_count ≡ 0 → find_logical_by_id after l.logical_session_id ≡ none)
      × (0 < l.media_reference_count
          → find_logical_by_id after l.logical_session_id
            ≡ some (j, record l { connection_count = 0 }))
unfolding close find_logical_by_id release_logical_if_unreferenced
close_last_connection m id i j c l v real e bound f last =
    let at = find_logical_by_id-some m c.logical_session_id f in
    let gone = cleared_absent m j l v at.0 at.1 in
    let kept =
      find_slot-set (has_logical_id l.logical_session_id) m.logical_sessions {i = j} {x = l}
        (record l { connection_count = 0 })
        (subst (λ n. find_slot (has_logical_id n) m.logical_sessions ≡ some (j, l)) (sym at.2) f)
        (ground (arith, at.1)) in
    let freed : l.media_reference_count ≡ 0
        → (close m id).0.logical_sessions ≡ set m.logical_sessions j zero_logical =
      λ z. ground arith in
    let stays : 0 < l.media_reference_count
        → (close m id).0.logical_sessions
          ≡ set m.logical_sessions j (record l { connection_count = 0 }) =
      λ z. ground arith in
    (ground arith, λ z. rw (freed z) gone, λ z. rw (stays z) kept)

-- Releasing a reference right after taking it gives back the very same tables: a well-formed session
-- is not freed on the way.
pub release_media-retain_media :
    (m : Manager) (id : ℕ)
    → Inv m
    → (retain_media m id).1 ≡ true
    → release_media (retain_media m id).0 id ≡ (m, true)
unfolding retain_media release_media find_logical_by_id release_logical_if_unreferenced
release_media-retain_media m id v h = elim (Option-cases (find_logical_by_id m id)) [
  | inl e ↦ absurd (ground arith)
  | inr ((j, l), e) ↦
      let at = find_logical_by_id-some m id e in
      let more = record l { media_reference_count = l.media_reference_count + 1 } in
      let retained : (retain_media m id).0 ≡ set_logical m j more = ground arith in
      let kept = (All-get IsKept m.logical_sessions j v.kept at.0).needed at.1 in
      rw retained (
        ground (
          arith,
          kept,
          find_slot-set (has_logical_id id) m.logical_sessions {i = j} {x = l} more e
              (ground (arith, at.1)),
          set-set m.logical_sessions j more l ∙ set_self m.logical_sessions j at.0,
        ))
]

-- Giving up the last media reference of a session that no connection is bound to ends the session.
pub release_media_last :
    (m : Manager) (id j : ℕ) (l : Logical)
    → Inv m
    → id ≢ 0
    → find_logical_by_id m id ≡ some (j, l)
    → references id m ≡ 0
    → l.media_reference_count ≡ 1
    → ((release_media m id).1 ≡ true) × (find_logical_by_id (release_media m id).0 id ≡ none)
unfolding release_media find_logical_by_id release_logical_if_unreferenced
release_media_last m id j l v real f unbound last =
    let at = find_logical_by_id-some m id f in
    let gone =
      subst (λ n. find_slot (has_logical_id n) (set m.logical_sessions j zero_logical) ≡ none) at.2
        (cleared_absent m j l v at.0 at.1) in
    let count = connection_count-references m id v f in
    let freed : (release_media m id).0.logical_sessions ≡ set m.logical_sessions j zero_logical =
      ground (arith, count) in
    (ground arith, rw freed gone)
