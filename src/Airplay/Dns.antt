-- ===== src/Airplay/Dns.antt =====
-- source/protocol/airplay/discovery/dns.c: the multicast DNS packets of the receiver.
pub mod Reads
pub mod Writer
pub mod Names
pub mod Records
pub mod Queries
pub mod Safety
pub mod RoundTrip
pub mod Packets
mod Tests
