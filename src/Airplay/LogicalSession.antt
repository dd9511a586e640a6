-- ===== src/Airplay/LogicalSession.antt =====
-- source/protocol/airplay/protocol/logical_session.h and logical_session.c: the connections of an
-- AirPlay sender and the logical sessions that they share. Each operation is what runs under the
-- manager's mutex; the addresses of the manager, the request and the out parameters are never NULL.
pub mod Rtsp
pub mod Entries
pub mod Observe
pub mod Release
pub mod Calls
pub mod Invariant
pub mod Lookup
pub mod Allocate
pub mod ObserveInvariant
pub mod ObserveCommit
pub mod Reach
pub mod Lifetime
pub mod Sharing
mod Tests
pub mod ReleaseInvariant
