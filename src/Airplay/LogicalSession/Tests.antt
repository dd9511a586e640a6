-- ===== src/Airplay/LogicalSession/Tests.antt =====
-- Runs of the session manager, and the theorems about it at concrete inputs.
use nx_cast.Base.{ℕ, ◌<◌, ◌≡◌, ◌≢◌, refl, true, false, some, none, List, [], ◌∷◌, arith}
use nx_cast.Base.Slots.{find_slot, weigh}
use nx_cast.Base.Text.{codes, bytes_eq}
use nx_cast.Airplay.LogicalSession.Rtsp.{
  Request, header_value, valid_apple_session_id, requires_logical_binding, classify_request,
  kind_eq, airplay,
}
use nx_cast.Airplay.LogicalSession.Entries.{
  Connection, Logical, create, find_connection, find_free_connection, find_logical_by_apple_id,
  find_logical_by_id, find_free_logical, release_logical_if_unreferenced, bind_connection,
  allocate_logical_id, first_logical_id, zero_logical, zero_connection,
}
use nx_cast.Airplay.LogicalSession.Observe.{
  unbound_media, choose_connection, choose_logical, note_connection, open_logical, bind_apple,
  commit, observe_locked, observe_header, observe,
}
use nx_cast.Airplay.LogicalSession.Release.{close, retain_media, release_media}
use nx_cast.Airplay.LogicalSession.Calls.{Call, observes, closes, retains, step, run}
use nx_cast.Airplay.LogicalSession.Invariant.{Inv, create-Inv, references}
use nx_cast.Airplay.LogicalSession.Allocate.{allocate_logical_id-fresh}
use nx_cast.Airplay.LogicalSession.Reach.{
  step-Inv, run-create-Inv, connection_count_exact, bound_connection_served,
}
use nx_cast.Airplay.LogicalSession.Lifetime.{
  close_last_connection, release_media-retain_media, release_media_last,
}
use nx_cast.Airplay.LogicalSession.Sharing.{observe-shares}

-- What the runs below compute with.
runs : Unit {0}
unfolding header_value valid_apple_session_id requires_logical_binding classify_request kind_eq
    create find_connection find_free_connection find_logical_by_apple_id find_logical_by_id
    find_free_logical release_logical_if_unreferenced bind_connection allocate_logical_id
    choose_connection choose_logical note_connection open_logical bind_apple commit observe_locked
    observe_header observe close retain_media release_media step run weigh bytes_eq find_slot
runs = tt

abbrev play : Request
play = record {
  uri = codes "/play";
  protocol = codes "HTTP/1.1";
  headers =
      record { name = codes "Host"; value = codes "switch" }
      ∷ record { name = codes "x-apple-session-id"; value = codes "A1" }
      ∷ [];
  has_cseq = false;
}

abbrev anonymous : Request
anonymous = record play { headers = [] }

abbrev history : List Call
history = observes 1 play ∷ observes 2 play ∷ retains first_logical_id ∷ closes 1 ∷ []

media_without_session : (observe create 1 anonymous).result ≡ unbound_media
unfolding runs
media_without_session = refl

step-Inv_example : Inv (step create (observes 1 play))
step-Inv_example = step-Inv create (observes 1 play) create-Inv

abbrev served : Logical
served = record {
  apple_session_id = codes "A1";
  logical_session_id = first_logical_id;
  connection_count = 1;
  media_reference_count = 1;
  client_id = zero_logical.client_id;
  client_id_bound = false;
  transport_terminated = false;
  used = true;
}

connection_count_exact_example :
    served.connection_count ≡ references first_logical_id (run create history)
unfolding runs
connection_count_exact_example = (connection_count_exact history first_logical_id 0 served refl).0

abbrev second_connection : Connection
second_connection = record {
  connection_id = 2;
  logical_session_id = first_logical_id;
  kind = airplay;
  client_id = zero_connection.client_id;
  client_id_bound = false;
  logical_session_bound = true;
  used = true;
}

bound_connection_served_example :
    (j : ℕ) × (l : Logical) × (find_logical_by_id (run create history) first_logical_id
      ≡ some (j, l))
    × (0 < l.connection_count)
unfolding runs
bound_connection_served_example = bound_connection_served history 1 second_connection refl refl refl

allocate_logical_id-fresh_example : (allocate_logical_id create).0 ≢ 0
allocate_logical_id-fresh_example = (allocate_logical_id-fresh create create-Inv).0

close_last_connection_example :
    find_logical_by_id (close (run create history) 2).0 first_logical_id
    ≡ some (0, record served { connection_count = 0 })
unfolding runs
close_last_connection_example =
    (close_last_connection (run create history) 2 1 0 second_connection served
        (run-create-Inv history) (λ e. omega arith) refl refl refl refl).2
      (omega arith)

abbrev detached : List Call
detached = observes 1 play ∷ retains first_logical_id ∷ closes 1 ∷ []

release_media_last_example :
    find_logical_by_id (release_media (run create detached) first_logical_id).0 first_logical_id
    ≡ none
unfolding runs
release_media_last_example =
    (release_media_last (run create detached) first_logical_id 0
      (record served { connection_count = 0 }) (run-create-Inv detached) (λ e. omega arith) refl
      refl refl).1

release_media-retain_media_example :
    release_media (retain_media (run create history) first_logical_id).0 first_logical_id
    ≡ (run create history, true)
unfolding runs
release_media-retain_media_example =
    release_media-retain_media (run create history) first_logical_id (run-create-Inv history) refl

observe-shares_example :
    let o = observe create 1 play in
    let p = observe o.after 2 play in
    (o.snapshot.logical_session_bound ≡ true)
    × (p.snapshot.logical_session_bound ≡ true)
    × (p.snapshot.logical_session_id ≡ o.snapshot.logical_session_id)
unfolding runs
observe-shares_example =
    observe-shares create 1 2 play play (codes "A1") create-Inv refl refl refl refl
