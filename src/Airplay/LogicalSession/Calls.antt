-- ===== src/Airplay/LogicalSession/Calls.antt =====
-- The calls of source/protocol/airplay/protocol/logical_session.c as steps of one manager.
use nx_cast.Base.{ℕ, List, [], ◌∷◌}
use nx_cast.Base.Text.{Bytes}
use nx_cast.Airplay.LogicalSession.Rtsp.{Request}
use nx_cast.Airplay.LogicalSession.Entries.{Manager}
use nx_cast.Airplay.LogicalSession.Observe.{observe}
use nx_cast.Airplay.LogicalSession.Release.{
  close, bind_client, mark_transport_teardown, retain_media, release_media,
}

-- The calls of the server's connection threads, in the order in which they take the mutex.
pub data Call : Type 0 where
  observes : ℕ → Request → Call
  closes : ℕ → Call
  binds_client : ℕ → Bytes → Call
  tears_down : ℕ → Call
  retains releases : ℕ → Call

unfoldable pub step : Manager → Call → Manager
step m (observes id r) = (observe m id r).after
step m (closes id) = (close m id).0
step m (binds_client id client) = (bind_client m id client).0
step m (tears_down id) = (mark_transport_teardown m id).0
step m (retains id) = (retain_media m id).0
step m (releases id) = (release_media m id).0

unfoldable pub run : Manager → List Call → Manager
run m [] = m
run m (c ∷ cs) = run (step m c) cs
