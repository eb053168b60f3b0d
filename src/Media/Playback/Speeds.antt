-- ===== src/Media/Playback/Speeds.antt =====
-- The plan for a playback speed, and the buffer that it wants.
use Prim.Native.String.{String}
use text.Mathlib.Text.{◌==◌ as str_eq}
use cctv_timeline_viewer_cor.Base.{
  ℕ, ◌-◌, ◌≤◌, ◌<◌, ◌≡◌, true, false, ◌||◌, none, some, arith, ltb, Bool-cases, inl, inr,
}
use cctv_timeline_viewer_cor.Media.Playback.{
  playback_plan, timeline_playback_speed, required_playback_buffer,
}

-- For a speed above 0, a plan plays at the speed that was chosen: its stream speed and its playback rate multiply to it,
-- for every profile. A transcoded stream is never slowed by the server nor sped up by the browser.
pub playback_plan_speed :
    (profile : String) (speed : ℕ)
    → 0 < speed
    → (timeline_playback_speed
          (some ((playback_plan profile (some speed)).playback_rate))
          (some ((playback_plan profile (some speed)).stream_speed))
        ≡ speed)
      × (1000 ≤ (playback_plan profile (some speed)).stream_speed)
      × ((playback_plan profile (some speed)).transcoded ≡ true
          → (playback_plan profile (some speed)).playback_rate ≤ 1000)
unfolding playback_plan timeline_playback_speed
playback_plan_speed profile speed pos =
    elim (Bool-cases (str_eq profile "balanced" || str_eq profile "fast")) [
      | inl t ↦
          rw t (elim (Bool-cases (ltb 1000 speed)) [
            | inl fast ↦ ground arith
            | inr slow ↦ ground arith
          ])
      | inr f ↦ rw f (ground arith)
    ]

-- The buffer that keeps playback going is at most the buffer that resumes it, and neither is more
-- than what a recording of known duration has left before its last half second.
pub required_playback_buffer_hysteresis :
    (speed current expected : ℕ)
    → (required_playback_buffer speed current (some expected) false
        ≤ required_playback_buffer speed current (some expected) true)
      × (required_playback_buffer speed current none false
          ≤ required_playback_buffer speed current none true)
      × (required_playback_buffer speed current (some expected) true ≤ expected - current - 500)
unfolding required_playback_buffer
required_playback_buffer_hysteresis speed current expected = ground arith
