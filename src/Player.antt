-- ===== src/Player.antt =====
-- ctv_web/js/player.js: the playback engine, one video per camera on the page and one clock for all.
pub mod Video
pub mod World
pub mod Ready
pub mod Source
pub mod Warm
pub mod Barrier
pub mod Page
pub mod Ended
pub mod Sync
pub mod Clock
pub mod Controls
pub mod Events
pub mod Promotion
