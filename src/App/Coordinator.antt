-- ===== src/App/Coordinator.antt =====
-- source/app/protocol_coordinator.h and protocol_coordinator.c: which protocol services run, which
-- media session is shown, and which resources it needs. `Coordinator` holds the statics
-- `g_coordinator`; a function is what its locked regions do, one after the other. A callback of
-- `ProtocolCoordinatorOperations` is a Boolean that says whether it is given; a call of it is put in
-- front of `calls`, and its answer is an argument, as is the clock `now`.
pub mod Data
pub mod States
pub mod Resources
pub mod Media
pub mod Playback
pub mod Shows
pub mod Synced
pub mod Transactions
pub mod Releases
pub mod Observed
pub mod History
pub mod Healing
pub mod Stopping
pub mod Stopped
pub mod WorkerShows
pub mod Steady
pub mod Turns
pub mod Convergence
mod Tests
