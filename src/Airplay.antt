-- ===== src/Airplay.antt =====
-- The AirPlay receiver: source/protocol/airplay.
pub mod LogicalSession
pub mod Dns
pub mod MirrorClock
