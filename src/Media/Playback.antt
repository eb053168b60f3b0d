-- ===== src/Media/Playback.antt =====
-- ctv_web/js/media.js: the arithmetic of seeking, speeds and buffers.
-- A number is a natural number of thousandths, as in `Recording`; a quotient is rounded down to one.
-- Where the source tests `Number.isFinite`, `none` stands for a number that is not finite.
-- `Math.max(0, a - b)` is the subtraction of natural numbers, which stops at 0.
pub mod Speeds
pub mod Positions
pub mod Completion
use Prim.Native.String.{String}
use text.Mathlib.Text.{◌==◌ as str_eq}
use cctv_timeline_viewer_cor.Base.{
  ℕ, ◌+◌, ◌-◌, ◌*◌, ◌/◌, min, max, Bool, true, false, ◌&&◌, ◌||◌, not, Option, none, some,
  if◌then◌else◌, ltb, leb, ◌==◌,
}

-- `Number.isFinite(value) && value > 0 ? value : fallback`
abbrev pub positive_or : Option ℕ → ℕ → ℕ
positive_or none fallback = fallback
positive_or (some value) fallback = if ltb 0 value then value else fallback

-- `Math.min(target, Math.max(0, duration - 0.05))`, if the duration is finite and positive
abbrev pub clamp_to_duration : ℕ → Option ℕ → ℕ
clamp_to_duration target none = target
clamp_to_duration target (some duration) =
    if duration == 0 then target else min target (duration - 50)

unfoldable pub safe_seek_target : ℕ → ℕ → Option ℕ → ℕ
safe_seek_target global_time recording_start duration =
    clamp_to_duration (global_time - recording_start) duration

pub record Ending : Type 0 where
  pub ended : Bool
  pub current_time : ℕ
  pub expected_duration : Option ℕ
  pub actual_duration : Option ℕ
  pub metadata_ready : Bool
  pub has_played : Bool
  pub buffering : Bool
  pub warming : Bool

-- `Number.isFinite(duration) && duration > 0 && currentTime >= duration - slack`
abbrev pub reaches : ℕ → Option ℕ → ℕ → Bool
reaches current none slack = false
reaches current (some duration) slack = ltb 0 duration && leb duration (current + slack)

-- `!Number.isFinite(duration) || duration <= 0`
abbrev pub unknown_duration : Option ℕ → Bool
unknown_duration none = true
unknown_duration (some duration) = duration == 0

unfoldable pub playback_completed : Ending → Bool
playback_completed e =
    if not e.ended || not e.metadata_ready || not e.has_played
    then false
    else (if reaches e.current_time e.actual_duration 50
        then true
        else (if e.buffering || e.warming
            then false
            else (if unknown_duration e.expected_duration
                then true
                else reaches e.current_time e.expected_duration 500)))

unfoldable pub required_playback_buffer : ℕ → ℕ → Option ℕ → Bool → ℕ
required_playback_buffer speed current_time expected_duration recovering =
    let resume : ℕ = if leb 8000 speed then 4000 else (if leb 4000 speed then 2000 else 750) in
    let desired : ℕ = if recovering then resume else min resume (150 * speed / 1000) in
    elim expected_duration [
      | none ↦ desired
      | some expected ↦ min desired (expected - current_time - 500)
    ]

unfoldable pub timeline_playback_speed : Option ℕ → Option ℕ → ℕ
timeline_playback_speed playback_rate stream_speed =
    positive_or playback_rate 1000 * positive_or stream_speed 1000 / 1000

pub record PlaybackPlan : Type 0 where
  pub transcoded : Bool
  pub stream_speed : ℕ
  pub playback_rate : ℕ

unfoldable pub playback_plan : String → Option ℕ → PlaybackPlan
playback_plan profile speed =
    let selected : ℕ = positive_or speed 1000 in
    let transcoded : Bool = str_eq profile "balanced" || str_eq profile "fast" in
    record {
      transcoded = transcoded;
      stream_speed = if transcoded then max 1000 selected else 1000;
      playback_rate = if transcoded then min 1000 selected else selected;
    }

-- `remaining * fps / speed >= 1`, multiplied out. A remaining time below 0 counts as 0: both give
-- `false`.
unfoldable pub transcoded_tail_has_frame : Option ℕ → Option ℕ → Option ℕ → Bool
transcoded_tail_has_frame none stream_speed output_fps = false
transcoded_tail_has_frame (some remaining) stream_speed output_fps =
    ltb 0 remaining
    && leb (1000 * positive_or stream_speed 1000) (remaining * positive_or output_fps 1000)

-- Times in whole thousandths, the quotient rounded down; the rounding of doubles is left out.
unfoldable pub media_time_for_timeline : ℕ → ℕ → ℕ → Option ℕ → Option ℕ → ℕ
media_time_for_timeline global_time recording_start stream_offset stream_speed expected_duration =
    clamp_to_duration
      ((global_time - recording_start - stream_offset) * 1000 / positive_or stream_speed 1000)
      expected_duration

-- The product is rounded down to a thousandth; the sum, which doubles round too, is exact here.
unfoldable pub timeline_time_for_media : ℕ → ℕ → ℕ → Option ℕ → ℕ
timeline_time_for_media media_time recording_start stream_offset stream_speed =
    recording_start + stream_offset + media_time * positive_or stream_speed 1000 / 1000
