-- ===== src/Player/Controls.antt =====
-- What the user and the page do to playback: play and pause, seek, speed, quality, preload, and the
-- reset of a recovery that goes with them. The frame that `startClock` cancels, and the timers of
-- paused sessions, are events that are then not given to the model.
pub mod Stops
use Prim.Native.String.{String}
use text.Mathlib.Text.{◌==◌ as str_eq}
use cctv_timeline_viewer_cor.Base.{
  ltb, leb, ◌==◌, if◌then◌else◌, ltb→lt, lt→ltb, leb→le, ==_iff, le→leb, ltb-false, leb-false,
  ne_test, tests, Bool-cases, Option-cases, ◌>>=◌, length, get_elem?, filter, any, find,
  length-append, get_elem?-lt, get_elem?-some, ◌∈◌, get_elem?-∈, ∈-get_elem?, Extended, lte,
  lt_extended, max_extended, lte_trans, lte-total, lte_refl, lte-max_left, lte-max_right,
  minus_infinity, finite, plus_infinity, ℕ, zero, suc, ◌+◌, ◌-◌, ◌*◌, ◌/◌, ◌%◌, ◌^◌, ◌≤◌, ◌<◌, min,
  max, ◌≡◌, refl, sym, ap, ◌∙◌, ◌≢◌, ◌↔◌, ◌⊎◌, inl, inr, Bool, true, false, not, ◌&&◌, ◌||◌, Option,
  none, some, List, [], ◌∷◌, ◌++◌, map, arith,
}
use cctv_timeline_viewer_cor.Recording.{Segment, CameraTrack, Timeline}
use cctv_timeline_viewer_cor.Player.Video.{
  Transport, is_native, is_mp4, is_hls, Key, same_key, EndProgress, Progress, Delivery,
  StartProgress, Mode, is_hold, is_prime, is_flow, Preparation, SourceKey, Video, have_metadata,
  have_current_data, have_future_data, has_recording, is_active, recording_number, distance,
  no_transport, native, mp4, hls, hold, prime, flow,
}
use cctv_timeline_viewer_cor.Player.World.{
  World, Ledger, time_number, anchor, find_camera, recorded_at, output_fps, show_failed, show_tail,
  show_recording, find_in, find_recording_at, video_playback_rate, video_buffer_duration,
  video_target_time, absolute_video_time,
}
use cctv_timeline_viewer_cor.Player.Ready.{
  ahead_in, buffered_ahead_at, buffer_covers_native_tail, required_buffer, last_end, media_key,
  same_number, moved, same_progress, native_tail, frozen_at_end, completed, new_progress,
  judge_progress, video_reached_end, target_key, started_from, native_startup_ready, near_end,
  minimum_ready, buffer_fills, buffered_for, video_has_playback_buffer, keep_video_warming,
  delivered, track_native_delivery, receiving, advancing, native_delivery_active, target_ready,
  native_recovery_target_ready, media_alignment_tolerance, misaligned, recovery_video_failed,
  greatest_speed, playback_spread_limit,
}
use cctv_timeline_viewer_cor.Player.Source.{
  pause_video, play_video, load, seek_element, release, cancelled_source, cancel_hls_source,
  failed_video, fail_video, original_duration, stream_offset_of, stream_duration_of, describe,
  prepare, sourced, show_nothing, source_in, update_player_cell, seek_applies, seek_video,
  source_key, restart_progressive_video, native_priming_rate, set_native_priming_rate, reload_key,
  is_reloaded, same_recording, reload_native_recovery,
}
use cctv_timeline_viewer_cor.Player.Barrier.{
  Player, Operation, each, if_active, finish_recovery, starve, hold_back, mark_waiting, mute, begun,
  barrier_world, enter_buffering_barrier, realign, align_video, align_each, align_videos,
}
use cctv_timeline_viewer_cor.Player.Page.{
  new_video, same_source, needs_update, is_some, has_time, render_video, video_of, remove_others,
  cells, render_players, stop_video, stop_playback, paused_release, next_segment_start,
  next_recording_start, records_now, set_clock, other_recording, cached_of, transition,
  needs_warmup, follow, jump_or_stop, reconcile_in, reconcile_playback_position,
}
use cctv_timeline_viewer_cor.Player.Clock.{
  put_video, failed_one, frozen, progress_key, judge_frozen, check_video_progress, check_each,
  active_cameras, expire_each, any_active, expire, overdue, find_completed, wait_states,
  some_starved, let_go, anchored, leave_barrier,
}
use cctv_timeline_viewer_cor.Player.Clock.Tick.{
  Phase, timed_videos, times_of, further, outlier, replace_all, advance, follow_videos, wall_time,
  follow_wall, move_clock, finish_barrier, wait_or_go, warmed, end_or_wait, next_frame, clock_tick,
  stopped, stepped, buffering, alignment, drift, advanced,
}

abbrev pub forget_recovery : Video → Video
forget_recovery v = record v {
  recovery_attempts = 0;
  recovery_reload = none;
  preparation = none;
  load_progress = none;
  sync_held = false;
}

-- `resetPlaybackRecovery`
unfoldable pub reset_playback_recovery : Player → Player
reset_playback_recovery p =
    let ended : Player =
      finish_recovery (record p {
        world = record p.world { epoch = p.world.epoch + 1; was_buffering = false };
      }) in
    record ended {
      ledger = record ended.ledger { decode_retries = [] };
      videos = map {A = Video} forget_recovery ended.videos;
    }

abbrev pub uncache_failed : Video → Video
uncache_failed v = if v.failed then record v { cached = none } else v

-- `retryFailedRecordings`
unfoldable pub retry_failed_recordings : Player → Player
retry_failed_recordings p = record p {
  ledger = record p.ledger { failed_recordings = [] };
  videos = map {A = Video} uncache_failed p.videos;
}

-- `hasCompressedPlayback`
unfoldable pub has_compressed_playback : Player → Bool
has_compressed_playback p =
    not (str_eq p.world.profile "native")
    || any {A = Video} (λ v. is_mp4 v.transport || is_hls v.transport) p.videos

-- `startClock`
unfoldable pub start_clock : Player → Player
start_clock p = (clock_tick (anchored p)).1

-- `reloadPlaybackStreams`
unfoldable pub reload_playback_streams : Player → Player
reload_playback_streams p =
    let reset : Player = reset_playback_recovery p in
    let rendered : Player =
      render_players true
        (record reset { ticking = false; videos = map {A = Video} pause_video reset.videos }) in
    if p.world.playing then start_clock (enter_buffering_barrier none rendered) else rendered

abbrev pub set_speed : ℕ → Video → Video
set_speed speed v = record v { playback_rate = speed; rate = speed }

-- `applyPlaybackSpeed`, of a number or of text that is none
unfoldable pub apply_playback_speed : Option ℕ → Player → Player
apply_playback_speed none p = p
apply_playback_speed (some speed) p =
    let faster : Player = anchored (record p { world = record p.world { speed = speed } }) in
    if speed == 0 || speed == p.world.speed
    then p
    else (if has_compressed_playback p
        then reload_playback_streams faster
        else record faster { videos = map {A = Video} (set_speed speed) faster.videos })

-- The change of the quality, and of the preload mode.
unfoldable pub change_quality : String → Player → Player
change_quality profile p =
    reload_playback_streams
      (retry_failed_recordings (record p { world = record p.world { profile = profile } }))

unfoldable pub change_preload : Bool → Player → Player
change_preload preload_auto p =
    reload_playback_streams (record p { world = record p.world { preload_auto = preload_auto } })

abbrev pub seek_shown : Operation
seek_shown w l v = if has_time w && has_recording v then (l, (seek_video w v).1) else (l, v)

-- `seekPlayersToTime`
unfoldable pub seek_players_to_time : Player → Player
seek_players_to_time p =
    let reset : Player =
      reset_playback_recovery (record p { videos = map {A = Video} mute p.videos }) in
    let sought : Ledger × List Video = each seek_shown reset.world reset.ledger reset.videos in
    if has_compressed_playback reset
    then render_players true reset
    else (if any (transition reset) reset.world.displayed
        then render_players false reset
        else record reset { ledger = sought.0; videos = sought.1 })

-- `seekCurrentTime`
unfoldable pub seek_current_time : Player → Player
seek_current_time p = if has_time p.world then render_players (has_compressed_playback p) p else p

abbrev pub first_start_of : List Segment → Option ℕ
first_start_of [] = none
first_start_of (s ∷ segments) = some s.start_ts

-- `S.timeline.cameras[0]?.segments[0]`
abbrev pub first_start : List CameraTrack → Option ℕ
first_start [] = none
first_start (camera ∷ cameras) = first_start_of camera.segments

-- Without a time, the start of the first recording of the first camera; the page is rendered for it.
abbrev pub choose_time : Player → Player
choose_time p = elim (p.world.timeline) [
  | none ↦ p
  | some timeline ↦
      render_players false
        (record p { world = record p.world { current_time = first_start timeline.cameras } })
]

-- The rest of the press, once there is a time; with an event filter the clock first steps to an event.
abbrev pub begin : Bool → Bool → Player → Player
begin filtered had_failed p =
    let cancelled : Bool = any {A = Video} (λ v. v.cancelled) p.videos in
    let shown : Player =
      if cancelled
      then render_players true p
      else (if had_failed then render_players false p else p) in
    let started : Player = record shown { world = record shown.world { playing = true } } in
    let placed : Player = if filtered then reconcile_playback_position started else started in
    if placed.world.playing then start_clock (enter_buffering_barrier none placed) else placed

-- `btn-play`
unfoldable pub press_play : Bool → Player → Player
press_play filtered p =
    let ready : Player = retry_failed_recordings (reset_playback_recovery p) in
    let timed : Player = if has_time ready.world then ready else choose_time ready in
    if p.world.playing
    then stop_playback false p
    else (if has_time timed.world
        then begin filtered (any {A = Video} (λ v. v.failed) p.videos) timed
        else timed)
