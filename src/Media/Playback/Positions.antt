-- ===== src/Media/Playback/Positions.antt =====
-- Positions on the timeline and in the media file.
use cctv_timeline_viewer_cor.Base.{ℕ, ◌+◌, ◌-◌, ◌≤◌, ◌<◌, ◌≡◌, some, arith}
use cctv_timeline_viewer_cor.Media.Playback.{safe_seek_target}

-- A seek into a recording of known duration stays 0.05 s before its end, and is the requested
-- position wherever that does.
pub safe_seek_target_bounds :
    (time start duration : ℕ)
    → 0 < duration
    → (safe_seek_target time start (some duration) ≤ duration - 50)
      × (start ≤ time
          → time - start + 50 ≤ duration
          → start + safe_seek_target time start (some duration) ≡ time)
unfolding safe_seek_target
safe_seek_target_bounds time start duration pos = ground arith
