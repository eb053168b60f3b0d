-- ===== src/Player/World.antt =====
-- What the video operations read and may not change (World), what they write besides their video
-- (Ledger), and the choice of the recording that a camera shows.
use Prim.Native.String.{String}
use text.Mathlib.Text.{◌==◌ as str_eq}
use cctv_timeline_viewer_cor.Base.{
  ltb, leb, ◌==◌, if◌then◌else◌, any, find, ℕ, ◌-◌, min, Bool, ◌&&◌, Option, none, some, List,
}
use cctv_timeline_viewer_cor.Recording.{Segment, CameraTrack, Timeline}
use cctv_timeline_viewer_cor.Media.Search.{recording_at}
use cctv_timeline_viewer_cor.Media.Playback.{
  playback_plan, transcoded_tail_has_frame, media_time_for_timeline, timeline_time_for_media,
  positive_or,
}
use cctv_timeline_viewer_cor.Player.Video.{Video, is_native, has_recording}

pub record World : Type 0 where
  -- `performance.now()`, one value for a whole handler
  pub now : ℕ
  pub playing : Bool
  pub current_time : Option ℕ
  pub was_buffering : Bool
  pub recovery_started : Option ℕ
  pub epoch : ℕ
  pub speed : ℕ
  pub profile : String
  pub profile_fps : Option ℕ
  pub profile_revision : ℕ
  pub timeline : Option Timeline
  -- the ids of `S.cameras` and of `displayedCameras()`
  pub cameras : List ℕ
  pub displayed : List ℕ
  pub preload_auto : Bool
  pub native_hls : Bool
  pub on_timeline_tab : Bool

pub record Ledger : Type 0 where
  -- `_clockStartTime` and `_clockStartWall`
  pub clock_start_time : Option ℕ
  pub clock_start_wall : ℕ
  -- `_failedRecordings`, the recordings alone
  pub failed_recordings : List ℕ
  -- `_nativeDecodeRetries`
  pub decode_retries : List ℕ
  pub restarts : ℕ
  -- the sessions that were released, the last first, and the number of the next session
  pub released : List ℕ
  pub next_session : ℕ

-- A null time counts as 0 in arithmetic.
abbrev pub time_number : Option ℕ → ℕ
time_number none = 0
time_number (some t) = t

-- `_clockStartTime = S.currentTime; _clockStartWall = performance.now()`
abbrev pub anchor : World → Ledger → Ledger
anchor w l = record l { clock_start_time = w.current_time; clock_start_wall = w.now }

abbrev pub find_camera : ℕ → List CameraTrack → Option CameraTrack
find_camera id cameras = find {A = CameraTrack} (λ c. c.camera_id == id) cameras

-- `CtvMedia.recordingAt`, which never faults on recordings in order.
abbrev pub recorded_at : List Segment → ℕ → Option Segment
recorded_at segments ts = elim (recording_at segments ts) [ none ↦ none | some r ↦ r ]

-- `configuredFps || fallbackFps`, in thousandths
abbrev pub output_fps : World → ℕ
output_fps w = positive_or w.profile_fps (if str_eq w.profile "balanced" then 15000 else 8000)

-- A recording that has failed keeps its whole interval; without an end, that of the timeline.
abbrev pub show_failed : Timeline → Segment → ℕ → Option Segment
show_failed timeline segment ts = elim (segment.end_ts) [
  | none ↦ if leb timeline.to ts then none else some segment
  | some end ↦ some segment
]

-- A transcoded tail that gives no frame is not shown.
abbrev pub show_tail : World → Segment → ℕ → Option Segment
show_tail w segment ts = elim (segment.end_ts) [
  | none ↦ some segment
  | some end ↦
      if str_eq w.profile "native"
      then some segment
      else (if transcoded_tail_has_frame (some (end - ts))
            (some ((playback_plan w.profile (some w.speed)).stream_speed)) (some (output_fps w))
          then some segment
          else none)
]

abbrev pub show_recording : World → Ledger → Timeline → Option Segment → ℕ → Option Segment
show_recording w l timeline none ts = none
show_recording w l timeline (some segment) ts =
    if any (λ r. r == segment.id) l.failed_recordings
    then show_failed timeline segment ts
    else show_tail w segment ts

abbrev pub find_in : World → Ledger → ℕ → Option Timeline → Option ℕ → Option Segment
find_in w l camera none ts = none
find_in w l camera (some timeline) none = none
find_in w l camera (some timeline) (some ts) = elim (find_camera camera timeline.cameras) [
  | none ↦ none
  | some track ↦ show_recording w l timeline (recorded_at track.segments ts) ts
]

-- `findRecordingAt`
unfoldable pub find_recording_at : World → Ledger → ℕ → Option ℕ → Option Segment
find_recording_at w l camera ts = find_in w l camera w.timeline ts

-- `videoPlaybackRate`: the rate of the cell, or the speed.
abbrev pub video_playback_rate : World → Video → ℕ
video_playback_rate w v =
    if has_recording v then positive_or (some v.playback_rate) w.speed else w.speed

-- `videoBufferDuration`
unfoldable pub video_buffer_duration : Video → Option ℕ
video_buffer_duration v =
    let expected : Option ℕ = if has_recording v then some v.duration else none in
    elim (v.media_duration) [
      | none ↦ expected
      | some actual ↦
          if actual == 0
          then expected
          else (if has_recording v && ltb 0 v.duration
              then some (min v.duration actual)
              else some actual)
    ]

-- `videoTargetTime`
unfoldable pub video_target_time : World → Video → ℕ
video_target_time w v =
    media_time_for_timeline (time_number w.current_time) v.start v.stream_offset
      (some v.stream_speed)
      (if is_native v.transport then video_buffer_duration v else some v.duration)

-- `absoluteVideoTime`
unfoldable pub absolute_video_time : Video → Option ℕ
absolute_video_time v =
    if has_recording v
    then some (timeline_time_for_media v.current_time v.start v.stream_offset (some v.stream_speed))
    else none
