-- ===== src/Lib.antt =====
-- NX-Cast (source/): a media centre that receives DLNA, IPTV and AirPlay playback. This library models
-- the parts that decide who plays and under which session, and proves that they keep their promises.
--
-- The parts and how they interact:
--   * Player/Ownership: source/player/core/ownership.c, the one lease on the player. Protocols claim
--     it; every queued command carries the generation of the lease under which it was made.
--   * Player/MediaActor: source/player/core/media_actor.c, the queue of commands in front of the player:
--     Commands has the data and the ring, Submit the callers' side, Worker the worker's side with start
--     and stop, Steps the locked regions in any order; Window and Fifo read the ring as a list. Rejecting
--     what is pending is a loop on fuel, the queue's length, since each turn takes one request out.
--   * App/MediaSession: source/app/protocol_media_session.c, the lifecycle of the current media. Its
--     claim events carry leases of the ownership module, perhaps late or out of order.
--   * App/Coordinator: source/app/protocol_coordinator.c, which ties the two together and decides which
--     protocols' services run. Data has its state, States the services and start and stop, Resources
--     the resource modes and the worker that moves the services to one, Stopping the stop and the reset, Media the
--     transactions, Playback the player's observations and the AirPlay status. The callbacks that it makes are logged in `calls`
--     and their answers are arguments. The callback that makes AirPlay give up the player may
--     change both modules: it is a parameter, with the hypothesis that it keeps them in agreement.
--   * Airplay/LogicalSession: source/protocol/airplay/protocol/logical_session.c, the tables that tie
--     an AirPlay sender's TCP connections to one media session, with the header lookup of rtsp.c.
--   * Airplay/Dns: source/protocol/airplay/discovery/dns.c, the multicast DNS packets. Writer has the bounded
--     writer, Reads the guarded reads of a received packet, Names the names with compression pointers,
--     Records the record set, Queries the answer to a packet. A read beyond the packet would be a fault of
--     the model, and so would a loop on fuel that runs out: a name is given one round of the packet for
--     each of the 16 pointers allowed, and one more, since labels move on and pointers are counted.
--   * Airplay/MirrorClock: source/protocol/airplay/mirror/clock.c, sender timestamps as 90 kHz ticks. An
--     int64_t is the integer it stands for, and overflow, which C leaves undefined, is not modelled.
--   * Player/SeekTarget: source/player/seek_target.c, positions as texts. The reading of seconds in floating
--     point is a parameter.
--   * Util: source/util/size.h, addition of sizes and growth of a capacity, a loop on fuel: the required
--     size is enough, since each turn adds at least 1.
--   * Base: numbers, lists, byte strings and searched tables that the parts share.
--
-- State is passed explicitly: an operation takes the record of the globals or of the object and returns
-- the new one with its results. Code that runs under a mutex is one step, and threads are the order
-- of the steps in a history. Machine words are natural numbers with the wrap written out; a C string
-- is the list of its bytes. Enumerations have only their named values, except the actor's command kinds,
-- which are numbers because the code tests their range.
--
-- Not modelled: sockets, threads, waits, printing, memory exhaustion (but for the actor's requests), and
-- the other parts of source/: the coordinator's start-up threads and waits, what other threads do within
-- a turn of its resource worker or within one of its calls, the mirror's media, the DLNA renderer, IPTV, the
-- player's backends and the user interface.
pub mod Base
pub mod Player
pub mod App
pub mod Airplay
pub mod Util
