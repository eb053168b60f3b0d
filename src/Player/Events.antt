-- ===== src/Player/Events.antt =====
-- The events of a media element and the answers that come later: each is dropped where the video has
-- another source by then. `v` is the video as it stands when the event comes, and a member of the
-- player's videos.
pub mod Retries
use cctv_timeline_viewer_cor.Base.{
  ltb, leb, ◌==◌, if◌then◌else◌, ltb→lt, lt→ltb, leb→le, ==_iff, le→leb, ltb-false, leb-false,
  ne_test, tests, Bool-cases, Option-cases, ◌>>=◌, length, get_elem?, filter, any, find,
  length-append, get_elem?-lt, get_elem?-some, ◌∈◌, get_elem?-∈, ∈-get_elem?, Extended, lte,
  lt_extended, max_extended, lte_trans, lte-total, lte_refl, lte-max_left, lte-max_right,
  minus_infinity, finite, plus_infinity, ℕ, zero, suc, ◌+◌, ◌-◌, ◌*◌, ◌/◌, ◌%◌, ◌^◌, ◌≤◌, ◌<◌, min,
  max, ◌≡◌, refl, sym, ap, ◌∙◌, ◌≢◌, ◌↔◌, ◌⊎◌, inl, inr, Bool, true, false, not, ◌&&◌, ◌||◌, Option,
  none, some, List, [], ◌∷◌, ◌++◌, map, arith,
}
use cctv_timeline_viewer_cor.Recording.{Segment}
use cctv_timeline_viewer_cor.Player.Video.{
  Transport, is_native, is_mp4, is_hls, Key, same_key, EndProgress, Progress, Delivery,
  StartProgress, Mode, is_hold, is_prime, is_flow, Preparation, SourceKey, Video, have_metadata,
  have_current_data, have_future_data, has_recording, is_active, recording_number, distance,
  no_transport, native, mp4, hls, hold, prime, flow,
}
use cctv_timeline_viewer_cor.Player.World.{
  World, Ledger, time_number, anchor, find_camera, recorded_at, output_fps, show_failed, show_tail,
  show_recording, find_in, find_recording_at, video_playback_rate, video_buffer_duration,
  video_target_time, absolute_video_time,
}
use cctv_timeline_viewer_cor.Player.Ready.{
  ahead_in, buffered_ahead_at, buffer_covers_native_tail, required_buffer, last_end, media_key,
  same_number, moved, same_progress, native_tail, frozen_at_end, completed, new_progress,
  judge_progress, video_reached_end, target_key, started_from, native_startup_ready, near_end,
  minimum_ready, buffer_fills, buffered_for, video_has_playback_buffer, keep_video_warming,
  delivered, track_native_delivery, receiving, advancing, native_delivery_active, target_ready,
  native_recovery_target_ready, media_alignment_tolerance, misaligned, recovery_video_failed,
  greatest_speed, playback_spread_limit,
}
use cctv_timeline_viewer_cor.Player.Source.{
  pause_video, play_video, load, seek_element, release, cancelled_source, cancel_hls_source,
  failed_video, fail_video, original_duration, stream_offset_of, stream_duration_of, describe,
  prepare, sourced, show_nothing, source_in, update_player_cell, seek_applies, seek_video,
  source_key, restart_progressive_video, native_priming_rate, set_native_priming_rate, reload_key,
  is_reloaded, same_recording, reload_native_recovery,
}
use cctv_timeline_viewer_cor.Player.Barrier.{
  Player, Operation, each, if_active, finish_recovery, starve, hold_back, mark_waiting, mute, begun,
  barrier_world, enter_buffering_barrier, realign, align_video, align_each, align_videos,
}
use cctv_timeline_viewer_cor.Player.Page.{
  new_video, same_source, needs_update, is_some, has_time, render_video, video_of, remove_others,
  cells, render_players, stop_video, stop_playback, paused_release, next_segment_start,
  next_recording_start, records_now, set_clock, other_recording, cached_of, transition,
  needs_warmup, follow, jump_or_stop, reconcile_in, reconcile_playback_position,
}
use cctv_timeline_viewer_cor.Player.Ended.{
  find_segment, known_end, after_start, boundary_of, end_segment, end_track, end_recording,
  replace_video, ended_recording, with_end, step_past, end_in, on_video_ended,
}
use cctv_timeline_viewer_cor.Player.Clock.{
  put_video, failed_one, frozen, progress_key, judge_frozen, check_video_progress, check_each,
  active_cameras, expire_each, any_active, expire, overdue, find_completed, wait_states,
  some_starved, let_go, anchored, leave_barrier,
}

-- The guard of every handler, with the generation in which it was installed.
abbrev pub is_current : ℕ → Video → Bool
is_current generation v = v.generation == generation && v.has_source

-- `onloadedmetadata`
unfoldable pub on_loaded_metadata : World → Video → Video
on_loaded_metadata w v =
    let ready : Video = record v { metadata_ready = true } in
    (seek_video w (
      if w.was_buffering && is_native v.transport
      then set_native_priming_rate ready
      else record ready { rate = video_playback_rate w v })).1

-- `selectedFrameReady`
abbrev pub selected_frame_ready : Video → Bool
selected_frame_ready v = v.metadata_ready && not v.seeking && leb have_current_data v.ready_state

abbrev pub clear_status : Video → Video
clear_status v = record v { buffering = false }

-- `clearStatusWhenReady`, which is also `onloadeddata` and `oncanplay`
unfoldable pub clear_status_when_ready : World → Video → Video
clear_status_when_ready w v =
    let ready : Bool × Video = video_has_playback_buffer w v in
    if v.failed
    then v
    else (if not w.playing
        then (if selected_frame_ready v then clear_status v else v)
        else (if ready.0 then clear_status (ready.1) else ready.1))

-- `onprogress`
unfoldable pub on_progress : World → Video → Video
on_progress w v = record v { load_progress = some (v.generation, w.now) }

-- `onseeked`
unfoldable pub on_seeked : World → Video → Video
on_seeked w v = clear_status_when_ready w (record v {
  start_progress = none;
  prefetch_seek =
      if is_native v.transport
      then some (target_key w v (video_target_time w v), w.now)
      else v.prefetch_seek;
  drift_seek = false;
})

-- `onplaying`
unfoldable pub on_playing : World → Video → Video
on_playing w v =
    let played : Video = record v { has_played = true } in
    if w.was_buffering
    then (if keep_video_warming v then played else pause_video played)
    else record played { rate = video_playback_rate w v; buffering = false }

-- `onwaiting`, and its timer, with what it remembers
unfoldable pub on_waiting : Player → Video → Player
on_waiting p v = if v.drift_seek then p else enter_buffering_barrier (some v.camera) p

unfoldable pub still_waiting : ℕ → ℕ → Player → Video → Player
still_waiting epoch generation p v =
    if p.world.playing
      && is_current generation v
      && p.world.epoch == epoch
      && v.drift_seek
      && ltb v.ready_state have_future_data
    then enter_buffering_barrier (some v.camera) p
    else p

-- `onstalled`
unfoldable pub on_stalled : Player → Video → Player
on_stalled p v =
    let ready : Bool × Video = video_has_playback_buffer p.world v in
    let seen : Player = put_video ready.1 p in
    if ready.0 then seen else enter_buffering_barrier (some v.camera) seen

-- `onended`
unfoldable pub on_ended : Player → Video → ℕ → Player
on_ended p v recording =
    let reached : Bool × Video = video_reached_end p.world v in
    let u : Video = reached.1 in
    let seen : Player = put_video u p in
    let barred : Player = enter_buffering_barrier (some u.camera) seen in
    if not v.metadata_ready || not v.has_played
    then p
    else (if reached.0
        then on_video_ended seen u recording
        else (if p.world.was_buffering || v.warming
            then (if is_mp4 v.transport && v.ended
                then on_video_ended seen u recording
                else put_video (seek_video p.world (pause_video u)).1 p)
            else (elim (video_of u.camera barred.videos) [
              | none ↦ barred
              | some x ↦ put_video (play_video x) barred
            ])))

-- The conditions of `retryNativeDecodeError`: a decode error of a native file that was not retried.
abbrev pub may_retry : Player → Video → Option ℕ → Bool
may_retry p v none = false
may_retry p v (some recording) =
    p.world.playing
    && is_native v.transport
    && (elim (v.error) [ none ↦ false | some code ↦ code == 3 ])
    && not (any (λ r. r == recording) p.ledger.decode_retries)
    && (elim (p.world.recovery_started) [
      | none ↦ true
      | some began ↦ ltb p.world.now (began + 30000)
    ])
    && any (λ c. c == v.camera) p.world.cameras
    && same_recording v (find_recording_at p.world p.ledger v.camera p.world.current_time)

-- The video after the barrier is entered, loaded anew.
abbrev pub decode_again : Player → Video → Option Segment → Player
decode_again p v rec =
    let again : Ledger × Video = update_player_cell p.world p.ledger v rec in
    put_video (set_native_priming_rate (record (again.1) { warming = true }))
      (record p { ledger = again.0 })

abbrev pub noted_retry : Player → Video → Player
noted_retry p v = record p {
  ledger = record p.ledger {
    decode_retries = elim (v.recording) [
      | none ↦ p.ledger.decode_retries
      | some r ↦ r ∷ p.ledger.decode_retries
    ];
  };
}

-- `retryNativeDecodeError`: whether the video is tried again, and the player after.
unfoldable pub retry_native_decode_error : Player → Video → Bool × Player
retry_native_decode_error p v =
    let rec : Option Segment = find_recording_at p.world p.ledger v.camera p.world.current_time in
    let barred : Player = enter_buffering_barrier none (noted_retry p v) in
    if may_retry p v v.recording
    then (
      true,
      elim (video_of v.camera barred.videos) [ none ↦ barred | some u ↦ decode_again barred u rec ],
    )
    else (false, p)

-- `onerror`
unfoldable pub on_error : Player → Video → Player
on_error p v =
    let again : Bool × Player = retry_native_decode_error p v in
    if again.0 then again.1 else failed_one p v

-- What a call of `play` remembers: the epoch, the generation and the attempt.
abbrev pub same_attempt : Key → World → Video → Bool
same_attempt key w v = w.playing && same_key key (w.epoch, v.generation, v.play_attempt)

-- The element plays.
unfoldable pub play_resolved : Key → World → Video → Video
play_resolved key w v =
    if same_attempt key w v && is_native v.transport
    then record v {
      rate = if w.was_buffering then native_priming_rate else video_playback_rate w v;
    }
    else v

-- The element does not: the policy of the browser denies it, or something else does. `muted_again` is
-- the answer of `CtvPlayerAudio.blocked`.
pub data Rejection : Type 0 where
  not_allowed : Rejection
  other_reason : Rejection

unfoldable pub play_rejected : Key → Rejection → Bool → Bool → Player → Video → Player
play_rejected key not_allowed muted_again recover p v =
    if not (same_attempt key p.world v)
    then p
    else (if muted_again then put_video (play_video v) p else stop_playback false p)
play_rejected key other_reason muted_again recover p v =
    if not (same_attempt key p.world v)
    then p
    else (if recover then enter_buffering_barrier (some v.camera) p else p)

-- The answer of the server to the request for a session, in `loadCompressedSource`.
pub data Answer : Type 0 where
  accepted : Answer
  refused : Answer
  unreachable : Answer

abbrev pub load_session : Player → Video → Player
load_session p v =
    let loaded : Player = put_video (load (record v { has_source = true; warming = false })) p in
    if p.world.playing then enter_buffering_barrier none loaded else loaded

-- A session for a source that was given up is released; without an answer there is nothing to do.
unfoldable pub session_answered : ℕ → ℕ → Answer → Player → Video → Player
session_answered generation job accepted p v =
    if v.generation == generation
    then load_session p v
    else record p { ledger = release (some job) p.ledger }
session_answered generation job refused p v =
    if v.generation == generation
    then failed_one p v
    else record p { ledger = release (some job) p.ledger }
session_answered generation job unreachable p v =
    if v.generation == generation then failed_one p v else p
