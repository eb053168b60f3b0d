-- ===== src/Timeline.antt =====
-- ctv_web/js/timeline.js: the range of time on view, and how panning, zooming, seeking and jumping move
-- it and the clock. Times, pixels and the numbers of the pointer are in thousandths.
pub mod Whole
pub mod View
pub mod Pan
pub mod Seek
pub mod Jump
