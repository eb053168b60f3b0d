-- ===== src/Player/Ended.antt =====
-- `onVideoEnded`: the one clock steps past the end of the recording that ended.
pub mod Onward
use cctv_timeline_viewer_cor.Base.{
  ltb, leb, ◌==◌, if◌then◌else◌, ltb→lt, lt→ltb, leb→le, ==_iff, le→leb, ltb-false, leb-false,
  ne_test, tests, Bool-cases, Option-cases, ◌>>=◌, length, get_elem?, filter, any, find,
  length-append, get_elem?-lt, get_elem?-some, ◌∈◌, get_elem?-∈, ∈-get_elem?, Extended, lte,
  lt_extended, max_extended, lte_trans, lte-total, lte_refl, lte-max_left, lte-max_right,
  minus_infinity, finite, plus_infinity, ℕ, zero, suc, ◌+◌, ◌-◌, ◌*◌, ◌/◌, ◌%◌, ◌^◌, ◌≤◌, ◌<◌, min,
  max, ◌≡◌, refl, sym, ap, ◌∙◌, ◌≢◌, ◌↔◌, ◌⊎◌, inl, inr, Bool, true, false, not, ◌&&◌, ◌||◌, Option,
  none, some, List, [], ◌∷◌, ◌++◌, map, arith,
}
use cctv_timeline_viewer_cor.Recording.{Segment, CameraTrack, Timeline}
use cctv_timeline_viewer_cor.Player.Video.{
  Transport, is_native, is_mp4, is_hls, Key, same_key, EndProgress, Progress, Delivery,
  StartProgress, Mode, is_hold, is_prime, is_flow, Preparation, SourceKey, Video, have_metadata,
  have_current_data, have_future_data, has_recording, is_active, recording_number, distance,
  no_transport, native, mp4, hls, hold, prime, flow,
}
use cctv_timeline_viewer_cor.Player.World.{
  World, Ledger, time_number, anchor, find_camera, recorded_at, output_fps, show_failed, show_tail,
  show_recording, find_in, find_recording_at, video_playback_rate, video_buffer_duration,
  video_target_time, absolute_video_time,
}
use cctv_timeline_viewer_cor.Player.Ready.{
  ahead_in, buffered_ahead_at, buffer_covers_native_tail, required_buffer, last_end, media_key,
  same_number, moved, same_progress, native_tail, frozen_at_end, completed, new_progress,
  judge_progress, video_reached_end, target_key, started_from, native_startup_ready, near_end,
  minimum_ready, buffer_fills, buffered_for, video_has_playback_buffer, keep_video_warming,
  delivered, track_native_delivery, receiving, advancing, native_delivery_active, target_ready,
  native_recovery_target_ready, media_alignment_tolerance, misaligned, recovery_video_failed,
  greatest_speed, playback_spread_limit,
}
use cctv_timeline_viewer_cor.Player.Barrier.{
  Player, Operation, each, if_active, finish_recovery, starve, hold_back, mark_waiting, mute, begun,
  barrier_world, enter_buffering_barrier, realign, align_video, align_each, align_videos,
}
use cctv_timeline_viewer_cor.Player.Page.{set_clock, reconcile_playback_position, video_of}

abbrev pub find_segment : ℕ → List Segment → Option Segment
find_segment id segments = find {A = Segment} (λ s. s.id == id) segments

-- The end that the index gives, if it is after the start.
abbrev pub known_end : Segment → Option ℕ
known_end s = elim (s.end_ts) [
  | none ↦ none
  | some end ↦ if ltb s.start_ts end then some end else none
]

abbrev pub after_start : Segment → Option ℕ → Option ℕ
after_start s none = none
after_start s (some measured) = if ltb s.start_ts measured then some measured else none

-- The end to step past: the known one, or where the media stands, if that is after the start.
abbrev pub boundary_of : Segment → Video → Option ℕ
boundary_of s v = elim (known_end s) [
  | some end ↦ some end
  | none ↦ after_start s (absolute_video_time v)
]

-- The timeline with the measured end of a recording of one camera.
abbrev pub end_segment : ℕ → ℕ → Segment → Segment
end_segment id end s = if s.id == id then record s { end_ts = some end } else s

abbrev pub end_track : ℕ → ℕ → ℕ → CameraTrack → CameraTrack
end_track camera id end track =
    if track.camera_id == camera
    then record track { segments = map {A = Segment} (end_segment id end) track.segments }
    else track

abbrev pub end_recording : ℕ → ℕ → ℕ → Timeline → Timeline
end_recording camera id end timeline = record timeline {
  cameras = map {A = CameraTrack} (end_track camera id end) timeline.cameras;
}

abbrev pub replace_video : Video → List Video → List Video
replace_video v videos = map {A = Video} (λ u. if u.camera == v.camera then v else u) videos

-- The recording of the video in the timeline, if this end is news of it: the recording is the one
-- that was expected, and no step past it was made yet.
abbrev pub ended_recording : Timeline → Video → ℕ → Option Segment
ended_recording timeline v expected =
    if not (same_number v.recording (some expected)) || same_number v.transitioning (some expected)
    then none
    else (elim (find_camera v.camera timeline.cameras) [
      | none ↦ none
      | some track ↦ find_segment expected track.segments
    ])

-- Only a measured end changes the timeline.
abbrev pub with_end : ℕ → Segment → ℕ → Timeline → Timeline
with_end camera s boundary timeline = elim (known_end s) [
  | some end ↦ timeline
  | none ↦ end_recording camera s.id boundary timeline
]

-- The step itself.
abbrev pub step_past : Player → Timeline → Video → Segment → ℕ → Player
step_past p timeline v s boundary = reconcile_playback_position (
    set_clock (max (time_number p.world.current_time) (boundary + 1)) (record p {
      world = record p.world { timeline = some (with_end v.camera s boundary timeline) };
      videos = replace_video (record v { transitioning = some s.id }) p.videos;
    }))

abbrev pub end_in : Player → Video → ℕ → Option Timeline → Player
end_in p v expected none = p
end_in p v expected (some timeline) = elim (ended_recording timeline v expected) [
  | none ↦ p
  | some s ↦ elim (boundary_of s v) [ none ↦ p | some boundary ↦ step_past p timeline v s boundary ]
]

-- With the video as it stands and the recording that was expected to end.
unfoldable pub on_video_ended : Player → Video → ℕ → Player
on_video_ended p v expected = end_in p v expected p.world.timeline
