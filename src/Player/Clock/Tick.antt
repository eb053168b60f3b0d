-- ===== src/Player/Clock/Tick.antt =====
-- One tick: every way out of `clockTick`, in its order.
pub mod Guards
pub mod Holds
pub mod Advance
use cctv_timeline_viewer_cor.Base.{
  ltb, leb, ◌==◌, if◌then◌else◌, ltb→lt, lt→ltb, leb→le, ==_iff, le→leb, ltb-false, leb-false,
  ne_test, tests, Bool-cases, Option-cases, ◌>>=◌, length, get_elem?, filter, any, find,
  length-append, get_elem?-lt, get_elem?-some, ◌∈◌, get_elem?-∈, ∈-get_elem?, Extended, lte,
  lt_extended, max_extended, lte_trans, lte-total, lte_refl, lte-max_left, lte-max_right,
  minus_infinity, finite, plus_infinity, ℕ, zero, suc, ◌+◌, ◌-◌, ◌*◌, ◌/◌, ◌%◌, ◌^◌, ◌≤◌, ◌<◌, min,
  max, ◌≡◌, refl, sym, ap, ◌∙◌, ◌≢◌, ◌↔◌, ◌⊎◌, inl, inr, Bool, true, false, not, ◌&&◌, ◌||◌, Option,
  none, some, List, [], ◌∷◌, ◌++◌, map, arith,
}
use cctv_timeline_viewer_cor.Media.Median.{median_time}
use cctv_timeline_viewer_cor.Player.Video.{
  Transport, is_native, is_mp4, is_hls, Key, same_key, EndProgress, Progress, Delivery,
  StartProgress, Mode, is_hold, is_prime, is_flow, Preparation, SourceKey, Video, have_metadata,
  have_current_data, have_future_data, has_recording, is_active, recording_number, distance,
  no_transport, native, mp4, hls, hold, prime, flow,
}
use cctv_timeline_viewer_cor.Player.World.{
  World, Ledger, time_number, anchor, find_camera, recorded_at, output_fps, show_failed, show_tail,
  show_recording, find_in, find_recording_at, video_playback_rate, video_buffer_duration,
  video_target_time, absolute_video_time,
}
use cctv_timeline_viewer_cor.Player.Ready.{
  ahead_in, buffered_ahead_at, buffer_covers_native_tail, required_buffer, last_end, media_key,
  same_number, moved, same_progress, native_tail, frozen_at_end, completed, new_progress,
  judge_progress, video_reached_end, target_key, started_from, native_startup_ready, near_end,
  minimum_ready, buffer_fills, buffered_for, video_has_playback_buffer, keep_video_warming,
  delivered, track_native_delivery, receiving, advancing, native_delivery_active, target_ready,
  native_recovery_target_ready, media_alignment_tolerance, misaligned, recovery_video_failed,
  greatest_speed, playback_spread_limit,
}
use cctv_timeline_viewer_cor.Player.Warm.{
  play_if_paused, pause_if_playing, seek_if_misaligned, flows, let_flow, hold_ready_native_target,
  prepared_for, grown, may_prime, primed, pulsed, hold_native_target, last_progress, pulse_failed,
  is_primed, prefetch_stalled_in, recover_stalled_native_prefetch, same_seek, fetch_target, refetch,
  start_warming, awaits_decoder, warm_target, warm_native_buffer,
}
use cctv_timeline_viewer_cor.Player.Barrier.{
  Player, Operation, each, if_active, finish_recovery, starve, hold_back, mark_waiting, mute, begun,
  barrier_world, enter_buffering_barrier, realign, align_video, align_each, align_videos,
}
use cctv_timeline_viewer_cor.Player.Page.{
  new_video, same_source, needs_update, is_some, has_time, render_video, video_of, remove_others,
  cells, render_players, stop_video, stop_playback, paused_release, next_segment_start,
  next_recording_start, records_now, set_clock, other_recording, cached_of, transition,
  needs_warmup, follow, jump_or_stop, reconcile_in, reconcile_playback_position,
}
use cctv_timeline_viewer_cor.Player.Ended.{
  find_segment, known_end, after_start, boundary_of, end_segment, end_track, end_recording,
  replace_video, ended_recording, with_end, step_past, end_in, on_video_ended,
}
use cctv_timeline_viewer_cor.Player.Sync.{
  Timed, least_time, greatest_time, all_native_ready, resume, resume_if_held, hold_leader, any_held,
  spread_within, synchronize_native_progress,
}
use cctv_timeline_viewer_cor.Player.Clock.{
  active_cameras, check_each, expire, overdue, find_completed, wait_states, some_starved,
  leave_barrier, anchored,
}

-- `playbackClockTrace.phase` at the end of the tick; `stepped` stands for a recording that ended.
pub data Phase : Type 0 where
  stopped : Phase
  stepped : Phase
  buffering : Phase
  alignment : Phase
  drift : Phase
  advanced : Phase

-- The active videos that have a time, in order.
unfoldable pub timed_videos : List Video → List Timed
timed_videos [] = []
timed_videos (v ∷ videos) = elim (absolute_video_time v) [
  | none ↦ timed_videos videos
  | some t ↦ if is_active v then (v, t) ∷ timed_videos videos else timed_videos videos
]

abbrev pub times_of : List Timed → List (Option ℕ)
times_of [] = []
times_of (x ∷ timed) = some (x.1) ∷ times_of timed

-- The first video that is furthest from a time.
abbrev pub further : ℕ → Timed → Option Timed → Option Timed
further time x none = some x
further time x (some worst) =
    if ltb (distance worst.1 time) (distance x.1 time) then some x else some worst

unfoldable pub outlier : ℕ → List Timed → Option Timed → Option Timed
outlier time [] worst = worst
outlier time (x ∷ timed) worst = outlier time timed (further time x worst)

unfoldable pub replace_all : List Timed → List Video → List Video
replace_all [] videos = videos
replace_all (x ∷ timed) videos = replace_all timed (replace_video x.0 videos)

-- `updateAutoHotspot` and the scrolling of the timeline, which come between, are not of the player.
abbrev pub advance : ℕ → Player → Phase × Player
advance time p = (advanced, reconcile_playback_position (set_clock time p))

-- The clock of the videos: the median, or, while leaders wait, the earliest time.
abbrev pub follow_videos : Player → List Timed → Phase × Player
follow_videos p timed =
    let middle : ℕ = time_number (median_time (times_of timed)) in
    let earliest : ℕ = time_number (least_time timed) in
    let limit : ℕ = playback_spread_limit p.world (map {A = Timed} (λ x. x.0) timed) in
    let synchronized : Bool × List Timed = synchronize_native_progress p.world limit timed in
    let after : Player = record p { videos = replace_all synchronized.1 p.videos } in
    let worst : Option ℕ = elim (outlier middle timed none) [
      | none ↦ none
      | some x ↦ some (x.0.camera)
    ] in
    if synchronized.0
    then advance (max (time_number p.world.current_time) earliest) after
    else (if ltb limit (greatest_time timed - earliest)
        then (drift, enter_buffering_barrier worst after)
        else advance middle after)

-- `_clockStartTime + (performance.now() - _clockStartWall) / 1000 * S.speed`
abbrev pub wall_time : Player → ℕ
wall_time p =
    time_number p.ledger.clock_start_time
    + (p.world.now - p.ledger.clock_start_wall) * p.world.speed / 1000

-- Without a video the clock follows the wall, and keeps its anchor.
abbrev pub follow_wall : Player → Phase × Player
follow_wall p = (
  advanced,
  reconcile_playback_position
      (record p { world = record p.world { current_time = some (wall_time p) } }),
)

unfoldable pub move_clock : Player → Phase × Player
move_clock p = elim (timed_videos p.videos) [
  | [] ↦ follow_wall p
  | x ∷ timed ↦ follow_videos p (x ∷ timed)
]

-- The end of a barrier, where the videos are aligned and have their buffers.
unfoldable pub finish_barrier : Player → Phase × Player
finish_barrier p =
    let aligned : Bool × Player = align_videos p in
    let starved : Bool × List Video = some_starved aligned.1.world aligned.1.videos in
    let checked : Player = record (aligned.1) { videos = starved.1 } in
    if not aligned.0
    then (alignment, aligned.1)
    else (if starved.0 then (alignment, checked) else move_clock (leave_barrier checked))

abbrev pub wait_or_go : Player → Phase × Player
wait_or_go p =
    let states : Bool × List Video = wait_states p.world p.videos in
    let after : Player = record p { videos = states.1 } in
    if states.0
    then (
      buffering,
      anchored (if p.world.was_buffering then after else enter_buffering_barrier none after),
    )
    else (if p.world.was_buffering then finish_barrier after else move_clock after)

abbrev pub warmed : Player → Player
warmed p =
    let warm : Ledger × List Video =
      each (if_active warm_native_buffer) p.world p.ledger p.videos in
    if p.world.was_buffering then record p { ledger = warm.0; videos = warm.1 } else p

abbrev pub end_or_wait : Player → Option Video × List Video → Phase × Player
end_or_wait p (none, videos) = wait_or_go (warmed (record p { videos = videos }))
end_or_wait p (some v, videos) = (
  stepped,
  elim (v.recording) [
    | none ↦ record p { videos = videos }
    | some r ↦ on_video_ended (record p { videos = videos }) v r
  ],
)

-- The request for the next frame, at the end of every way out but the first.
abbrev pub next_frame : Phase × Player → Phase × Player
next_frame result = (result.0, record (result.1) { ticking = true })

-- `clockTick`
unfoldable pub clock_tick : Player → Phase × Player
clock_tick p =
    let checked : Player = check_each (active_cameras p.videos) p in
    let due : Player = if overdue checked.world then expire checked else checked in
    if not p.world.playing || not p.world.on_timeline_tab
    then (stopped, record p { ticking = false })
    else next_frame (end_or_wait due (find_completed due.world due.videos))
