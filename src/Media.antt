-- ===== src/Media.antt =====
-- ctv_web/js/media.js
pub mod Search
pub mod Index
pub mod Query
pub mod Playback
pub mod Median
pub mod Progress
