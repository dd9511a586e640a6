-- ===== src/Player/MediaActor.antt =====
-- source/player/core/media_actor.h and media_actor.c: the queue of commands that one worker thread
-- runs. `Actor` is `struct MediaActor` without its mutex, condition variable and thread handles. Each
-- function is what one locked region does; a request that leaves the queue is handed to the
-- caller. `now` is `monotonic_ms()`, `memory` says whether `request_create` finds memory, and a
-- callback's answer is a Boolean argument.
pub mod Ring
pub mod Window
pub mod Commands
pub mod Submit
pub mod Worker
pub mod Queue
pub mod Fifo
pub mod Drain
pub mod Refine
pub mod Sound
pub mod Steps
pub mod Admission
mod Tests
