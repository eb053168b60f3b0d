-- ===== src/Player/Clock.antt =====
-- `clockTick`, the step of the one clock, and what starts and stops it. The videos of a page have
-- different cameras, by which a video is found again.
pub mod Tick
pub mod Deadline
pub mod Stands
use cctv_timeline_viewer_cor.Base.{
  ltb, leb, ◌==◌, if◌then◌else◌, ltb→lt, lt→ltb, leb→le, ==_iff, le→leb, ltb-false, leb-false,
  ne_test, tests, Bool-cases, Option-cases, ◌>>=◌, length, get_elem?, filter, any, find,
  length-append, get_elem?-lt, get_elem?-some, ◌∈◌, get_elem?-∈, ∈-get_elem?, Extended, lte,
  lt_extended, max_extended, lte_trans, lte-total, lte_refl, lte-max_left, lte-max_right,
  minus_infinity, finite, plus_infinity, ℕ, zero, suc, ◌+◌, ◌-◌, ◌*◌, ◌/◌, ◌%◌, ◌^◌, ◌≤◌, ◌<◌, min,
  max, ◌≡◌, refl, sym, ap, ◌∙◌, ◌≢◌, ◌↔◌, ◌⊎◌, inl, inr, Bool, true, false, not, ◌&&◌, ◌||◌, Option,
  none, some, List, [], ◌∷◌, ◌++◌, map, arith,
}
use cctv_timeline_viewer_cor.Media.Median.{median_time}
use cctv_timeline_viewer_cor.Player.Video.{
  Transport, is_native, is_mp4, is_hls, Key, same_key, EndProgress, Progress, Delivery,
  StartProgress, Mode, is_hold, is_prime, is_flow, Preparation, SourceKey, Video, have_metadata,
  have_current_data, have_future_data, has_recording, is_active, recording_number, distance,
  no_transport, native, mp4, hls, hold, prime, flow,
}
use cctv_timeline_viewer_cor.Player.World.{
  World, Ledger, time_number, anchor, find_camera, recorded_at, output_fps, show_failed, show_tail,
  show_recording, find_in, find_recording_at, video_playback_rate, video_buffer_duration,
  video_target_time, absolute_video_time,
}
use cctv_timeline_viewer_cor.Player.Ready.{
  ahead_in, buffered_ahead_at, buffer_covers_native_tail, required_buffer, last_end, media_key,
  same_number, moved, same_progress, native_tail, frozen_at_end, completed, new_progress,
  judge_progress, video_reached_end, target_key, started_from, native_startup_ready, near_end,
  minimum_ready, buffer_fills, buffered_for, video_has_playback_buffer, keep_video_warming,
  delivered, track_native_delivery, receiving, advancing, native_delivery_active, target_ready,
  native_recovery_target_ready, media_alignment_tolerance, misaligned, recovery_video_failed,
  greatest_speed, playback_spread_limit,
}
use cctv_timeline_viewer_cor.Player.Source.{
  pause_video, play_video, load, seek_element, release, cancelled_source, cancel_hls_source,
  failed_video, fail_video, original_duration, stream_offset_of, stream_duration_of, describe,
  prepare, sourced, show_nothing, source_in, update_player_cell, seek_applies, seek_video,
  source_key, restart_progressive_video, native_priming_rate, set_native_priming_rate, reload_key,
  is_reloaded, same_recording, reload_native_recovery,
}
use cctv_timeline_viewer_cor.Player.Warm.{
  play_if_paused, pause_if_playing, seek_if_misaligned, flows, let_flow, hold_ready_native_target,
  prepared_for, grown, may_prime, primed, pulsed, hold_native_target, last_progress, pulse_failed,
  is_primed, prefetch_stalled_in, recover_stalled_native_prefetch, same_seek, fetch_target, refetch,
  start_warming, awaits_decoder, warm_target, warm_native_buffer,
}
use cctv_timeline_viewer_cor.Player.Barrier.{
  Player, Operation, each, if_active, finish_recovery, starve, hold_back, mark_waiting, mute, begun,
  barrier_world, enter_buffering_barrier, realign, align_video, align_each, align_videos,
}
use cctv_timeline_viewer_cor.Player.Page.{
  new_video, same_source, needs_update, is_some, has_time, render_video, video_of, remove_others,
  cells, render_players, stop_video, stop_playback, paused_release, next_segment_start,
  next_recording_start, records_now, set_clock, other_recording, cached_of, transition,
  needs_warmup, follow, jump_or_stop, reconcile_in, reconcile_playback_position,
}
use cctv_timeline_viewer_cor.Player.Ended.{
  find_segment, known_end, after_start, boundary_of, end_segment, end_track, end_recording,
  replace_video, ended_recording, with_end, step_past, end_in, on_video_ended,
}
use cctv_timeline_viewer_cor.Player.Sync.{
  Timed, least_time, greatest_time, all_native_ready, resume, resume_if_held, hold_leader, any_held,
  spread_within, synchronize_native_progress,
}

abbrev pub put_video : Video → Player → Player
put_video v p = record p { videos = replace_video v p.videos }

abbrev pub failed_one : Player → Video → Player
failed_one p v =
    let gone : Ledger × Video = fail_video p.world p.ledger v in
    put_video gone.1 (record p { ledger = gone.0 })

-- What happens to a video that has not moved for eight seconds.
abbrev pub frozen : Player → Video → Player
frozen p v =
    let reached : Bool × Video = video_reached_end p.world v in
    let u : Video = reached.1 in
    let again : Bool × Ledger × Video =
      reload_native_recovery p.world p.ledger u (video_target_time p.world u) in
    if reached.0
    then put_video u p
    else (if native_delivery_active p.world u
        then enter_buffering_barrier (some u.camera) (put_video u p)
        else (if is_native u.transport && again.0
            then enter_buffering_barrier (some u.camera)
                (put_video again.2 (record p { ledger = again.1 }))
            else failed_one p u))

abbrev pub progress_key : Video → Key
progress_key v = (v.generation, recording_number v, if v.has_source then 1 else 0)

abbrev pub judge_frozen : Player → Video → Option Progress → Player
judge_frozen p v none =
    put_video
      (record v {
        playback_progress =
            some (record { key = progress_key v; time = v.current_time; since = p.world.now });
      })
      p
judge_frozen p v (some g) =
    if not (same_key g.key (progress_key v)) || moved v.current_time g.time
    then put_video
        (record v {
          playback_progress =
              some (record { key = progress_key v; time = v.current_time; since = p.world.now });
        })
        p
    else (if leb (g.since + 8000) p.world.now then frozen p v else put_video v p)

-- `checkVideoProgress`
unfoldable pub check_video_progress : Player → Video → Player
check_video_progress p v =
    let ready : Bool × Video = video_has_playback_buffer p.world v in
    if not p.world.playing || p.world.was_buffering || v.sync_held || v.seeking || not v.has_played
    then put_video (record v { playback_progress = none }) p
    else (if not ready.0
        then put_video (record (ready.1) { playback_progress = none }) p
        else judge_frozen p ready.1 ready.1.playback_progress)

-- The loop over the cameras of the videos that were active at its start.
unfoldable pub check_each : List ℕ → Player → Player
check_each [] p = p
check_each (camera ∷ cameras) p = check_each cameras (elim (video_of camera p.videos) [
  | none ↦ p
  | some v ↦ check_video_progress p (track_native_delivery p.world v)
])

unfoldable pub active_cameras : List Video → List ℕ
active_cameras [] = []
active_cameras (v ∷ videos) =
    if is_active v then v.camera ∷ active_cameras videos else active_cameras videos

-- Videos whose recovery took too long fail, unless data still comes in: whether one failed, whether
-- data comes in for one, and what is after.
unfoldable pub expire_each : World → Ledger → List Video → (Bool × Bool) × Ledger × List Video
expire_each w l [] = ((false, false), l, [])
expire_each w l (v ∷ videos) =
    let late : Bool × Video = recovery_video_failed w v in
    let coming : Bool = native_delivery_active w late.1 in
    let gone : Ledger × Video = fail_video w l late.1 in
    let kept : Ledger × Video = (l, late.1) in
    let one : Ledger × Video =
      if is_active v then (if late.0 && not coming then gone else kept) else (l, v) in
    let others : (Bool × Bool) × Ledger × List Video = expire_each w one.0 videos in
    (
      (
        is_active v && late.0 && not coming || others.0.0,
        is_active v && late.0 && coming || others.0.1,
      ),
      others.1,
      one.1 ∷ others.2,
    )

abbrev pub any_active : List Video → Bool
any_active videos = any {A = Video} is_active videos

unfoldable pub expire : Player → Player
expire p =
    let checked : (Bool × Bool) × Ledger × List Video = expire_each p.world p.ledger p.videos in
    let after : Player = record p { ledger = checked.1; videos = checked.2 } in
    let ended : Player = finish_recovery after in
    if checked.0.0 || not checked.0.1
    then (if any_active ended.videos then enter_buffering_barrier none ended else ended)
    else after

-- The deadline of a recovery: thirty seconds.
abbrev pub overdue : World → Bool
overdue w = elim (w.recovery_started) [ none ↦ false | some began ↦ ltb (began + 30000) w.now ]

-- `videos.find(videoReachedEnd)` among the active videos.
unfoldable pub find_completed : World → List Video → Option Video × List Video
find_completed w [] = (none, [])
find_completed w (v ∷ videos) =
    let reached : Bool × Video = video_reached_end w v in
    let others : Option Video × List Video = find_completed w videos in
    if not (is_active v)
    then (others.0, v ∷ others.1)
    else (if reached.0
        then (some reached.1, reached.1 ∷ videos)
        else (others.0, reached.1 ∷ others.1))

-- Whether a video waits, once its message is cleared where it is ready; and the videos after.
unfoldable pub wait_states : World → List Video → Bool × List Video
wait_states w [] = (false, [])
wait_states w (v ∷ videos) =
    let ready : Bool × Video = video_has_playback_buffer w v in
    let shown : Video = record (ready.1) { buffering = ready.1.buffering && not ready.0 } in
    let others : Bool × List Video = wait_states w videos in
    if not (is_active v)
    then (others.0, v ∷ others.1)
    else (shown.buffering || (not shown.drift_seek && not ready.0) || others.0, shown ∷ others.1)

-- `videos.some(video => !videoHasPlaybackBuffer(video))`
unfoldable pub some_starved : World → List Video → Bool × List Video
some_starved w [] = (false, [])
some_starved w (v ∷ videos) =
    let ready : Bool × Video = video_has_playback_buffer w v in
    let others : Bool × List Video = some_starved w videos in
    if not (is_active v)
    then (others.0, v ∷ others.1)
    else (if not ready.0 then (true, ready.1 ∷ videos) else (others.0, ready.1 ∷ others.1))

-- A video at the end of the barrier.
abbrev pub let_go : Operation
let_go w l v = (
  l,
  play_video (record v { warming = false; buffering = false; rate = video_playback_rate w v }),
)

abbrev pub anchored : Player → Player
anchored p = record p { ledger = anchor p.world p.ledger }

unfoldable pub leave_barrier : Player → Player
leave_barrier p =
    let opened : Player =
      finish_recovery (record p { world = record p.world { was_buffering = false } }) in
    let gone : Ledger × List Video =
      each (if_active let_go) opened.world opened.ledger opened.videos in
    anchored (record opened { ledger = gone.0; videos = gone.1 })
