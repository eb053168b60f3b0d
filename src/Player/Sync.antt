-- ===== src/Player/Sync.antt =====
-- `synchronizeNativeProgress`: of videos that have drifted apart, the leaders wait for the others.
pub mod Leaders
use cctv_timeline_viewer_cor.Base.{
  ltb, leb, ◌==◌, if◌then◌else◌, ltb→lt, lt→ltb, leb→le, ==_iff, le→leb, ltb-false, leb-false,
  ne_test, tests, Bool-cases, Option-cases, ◌>>=◌, length, get_elem?, filter, any, find,
  length-append, get_elem?-lt, get_elem?-some, ◌∈◌, get_elem?-∈, ∈-get_elem?, Extended, lte,
  lt_extended, max_extended, lte_trans, lte-total, lte_refl, lte-max_left, lte-max_right,
  minus_infinity, finite, plus_infinity, ℕ, zero, suc, ◌+◌, ◌-◌, ◌*◌, ◌/◌, ◌%◌, ◌^◌, ◌≤◌, ◌<◌, min,
  max, ◌≡◌, refl, sym, ap, ◌∙◌, ◌≢◌, ◌↔◌, ◌⊎◌, inl, inr, Bool, true, false, not, ◌&&◌, ◌||◌, Option,
  none, some, List, [], ◌∷◌, ◌++◌, map, arith,
}
use cctv_timeline_viewer_cor.Player.Video.{
  Transport, is_native, is_mp4, is_hls, Key, same_key, EndProgress, Progress, Delivery,
  StartProgress, Mode, is_hold, is_prime, is_flow, Preparation, SourceKey, Video, have_metadata,
  have_current_data, have_future_data, has_recording, is_active, recording_number, distance,
  no_transport, native, mp4, hls, hold, prime, flow,
}
use cctv_timeline_viewer_cor.Player.World.{
  World, Ledger, time_number, anchor, find_camera, recorded_at, output_fps, show_failed, show_tail,
  show_recording, find_in, find_recording_at, video_playback_rate, video_buffer_duration,
  video_target_time, absolute_video_time,
}
use cctv_timeline_viewer_cor.Player.Ready.{
  ahead_in, buffered_ahead_at, buffer_covers_native_tail, required_buffer, last_end, media_key,
  same_number, moved, same_progress, native_tail, frozen_at_end, completed, new_progress,
  judge_progress, video_reached_end, target_key, started_from, native_startup_ready, near_end,
  minimum_ready, buffer_fills, buffered_for, video_has_playback_buffer, keep_video_warming,
  delivered, track_native_delivery, receiving, advancing, native_delivery_active, target_ready,
  native_recovery_target_ready, media_alignment_tolerance, misaligned, recovery_video_failed,
  greatest_speed, playback_spread_limit,
}
use cctv_timeline_viewer_cor.Player.Source.{pause_video, play_video}

-- A video with its time on the timeline.
abbrev pub Timed : Type 0
Timed = Video × ℕ

unfoldable pub least_time : List Timed → Option ℕ
least_time [] = none
least_time (x ∷ timed) = elim (least_time timed) [ none ↦ some (x.1) | some t ↦ some (min x.1 t) ]

unfoldable pub greatest_time : List Timed → ℕ
greatest_time [] = 0
greatest_time (x ∷ timed) = max x.1 (greatest_time timed)

-- `!timedVideos.some(...)`: every video is native, does not seek, and has its buffer; the test of
-- the buffer remembers what it saw.
unfoldable pub all_native_ready : World → List Timed → Bool × List Timed
all_native_ready w [] = (true, [])
all_native_ready w (x ∷ timed) =
    let ready : Bool × Video = video_has_playback_buffer w x.0 in
    let others : Bool × List Timed = all_native_ready w timed in
    if not (is_native x.0.transport) || x.0.seeking
    then (false, x ∷ timed)
    else (if not ready.0
        then (false, (ready.1, x.1) ∷ timed)
        else (others.0, (ready.1, x.1) ∷ others.1))

abbrev pub resume : World → Video → Video
resume w v = play_video (record v { sync_held = false; rate = video_playback_rate w v })

abbrev pub resume_if_held : World → Timed → Timed
resume_if_held w x = if x.0.sync_held then (resume w x.0, x.1) else x

-- One video, from the earliest time and the limit.
abbrev pub hold_leader : World → ℕ → ℕ → Timed → Timed
hold_leader w earliest limit x =
    if ltb (earliest + limit / 2) x.1
    then (if not x.0.sync_held then (pause_video (record x.0 { sync_held = true }), x.1) else x)
    else (if x.0.sync_held && leb x.1 (earliest + limit / 4) then (resume w x.0, x.1) else x)

abbrev pub any_held : List Timed → Bool
any_held timed = any {A = Timed} (λ x. x.0.sync_held) timed

abbrev pub spread_within : ℕ → ℕ → List Timed → Bool
spread_within earliest limit timed =
    leb (greatest_time timed - earliest) (if any_held timed then limit / 2 else limit)

-- Whether some videos are held, and the videos after.
unfoldable pub synchronize_native_progress : World → ℕ → List Timed → Bool × List Timed
synchronize_native_progress w limit timed =
    let ready : Bool × List Timed = all_native_ready w timed in
    let earliest : ℕ = time_number (least_time ready.1) in
    if ltb (length timed) 2
    then (false, timed)
    else (if not ready.0
        then (false, ready.1)
        else (if spread_within earliest limit ready.1
            then (false, map {A = Timed} (resume_if_held w) ready.1)
            else (true, map {A = Timed} (hold_leader w earliest limit) ready.1)))
