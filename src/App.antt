-- ===== src/App.antt =====
-- The application's protocol layer: source/app.
pub mod MediaSession
pub mod Coordinator
