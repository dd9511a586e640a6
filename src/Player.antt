-- ===== src/Player.antt =====
-- The player: source/player.
pub mod Ownership
pub mod MediaActor
pub mod SeekTarget
