-- ===== src/Airplay/LogicalSession/Reach.antt =====
-- Histories of calls to source/protocol/airplay/protocol/logical_session.c.
use nx_cast.Base.{ℕ, ◌+◌, ◌<◌, ◌≡◌, some, true, List, [], ◌∷◌, get_elem?}
use nx_cast.Base.Slots.{All-get}
use nx_cast.Airplay.LogicalSession.Entries.{
  Connection, Logical, Manager, create, find_logical_by_id,
}
use nx_cast.Airplay.LogicalSession.Calls.{
  Call, observes, closes, binds_client, tears_down, retains, releases, step, run,
}
use nx_cast.Airplay.LogicalSession.Invariant.{Inv, IsKept, references, create-Inv}
use nx_cast.Airplay.LogicalSession.Lookup.{
  find_logical_by_id-some, connection_count-references, bound-found,
}
use nx_cast.Airplay.LogicalSession.ReleaseInvariant.{
  retain_media-Inv, release_media-Inv, bind_client-Inv, mark_transport_teardown-Inv, close-Inv,
}
use nx_cast.Airplay.LogicalSession.ObserveCommit.{observe-Inv}

-- Every call keeps the tables well formed: sessions count their connections, ids and Apple ids are
-- unique, free entries are unbound, and a session in use has a connection or media to serve.
pub step-Inv : (m : Manager) (c : Call) → Inv m → Inv (step m c)
unfolding step
step-Inv m (observes id r) v = observe-Inv m id r v
step-Inv m (closes id) v = close-Inv m v id
step-Inv m (binds_client id client) v = bind_client-Inv m v id client
step-Inv m (tears_down id) v = mark_transport_teardown-Inv m v id
step-Inv m (retains id) v = retain_media-Inv m v id
step-Inv m (releases id) v = release_media-Inv m v id

run-Inv : (m : Manager) (cs : List Call) → Inv m → Inv (run m cs)
unfolding run
run-Inv m [] v = v
run-Inv m (c ∷ cs) v = run-Inv (step m c) cs (step-Inv m c v)

pub run-create-Inv : (cs : List Call) → Inv (run create cs)
run-create-Inv cs = run-Inv create cs create-Inv

-- After any history, a session that is found counts exactly the connections in use that are bound
-- to it, and has a connection or media to serve.
pub connection_count_exact :
    (cs : List Call) (id j : ℕ) (l : Logical)
    → find_logical_by_id (run create cs) id ≡ some (j, l)
    → (l.connection_count ≡ references id (run create cs))
      × (0 < l.connection_count + l.media_reference_count)
connection_count_exact cs id j l h =
    let m = run create cs in
    let v = run-create-Inv cs in
    let at = find_logical_by_id-some m id h in
    (
      connection_count-references m id v h,
      (All-get IsKept m.logical_sessions j v.kept at.0).needed at.1,
    )

-- After any history, a connection that is bound finds its session.
pub bound_connection_served :
    (cs : List Call) (i : ℕ) (c : Connection)
    → get_elem? (run create cs).connections i ≡ some c
    → c.used ≡ true
    → c.logical_session_bound ≡ true
    → (j : ℕ) × (l : Logical) × (find_logical_by_id (run create cs) c.logical_session_id
        ≡ some (j, l))
      × (0 < l.connection_count)
bound_connection_served cs i c at used bound =
    bound-found (run create cs) i (run-create-Inv cs) at used bound
