-- ===== src/Player/Barrier.antt =====
-- The buffering barrier: while one video fills its buffer all of them wait, and the clock with them.
pub mod Every
pub mod Stands
pub mod Silent
use cctv_timeline_viewer_cor.Base.{
  ltb, leb, ◌==◌, if◌then◌else◌, ltb→lt, lt→ltb, leb→le, ==_iff, le→leb, ltb-false, leb-false,
  ne_test, tests, Bool-cases, Option-cases, ◌>>=◌, length, get_elem?, filter, any, find,
  length-append, get_elem?-lt, get_elem?-some, ◌∈◌, get_elem?-∈, ∈-get_elem?, Extended, lte,
  lt_extended, max_extended, lte_trans, lte-total, lte_refl, lte-max_left, lte-max_right,
  minus_infinity, finite, plus_infinity, ℕ, zero, suc, ◌+◌, ◌-◌, ◌*◌, ◌/◌, ◌%◌, ◌^◌, ◌≤◌, ◌<◌, min,
  max, ◌≡◌, refl, sym, ap, ◌∙◌, ◌≢◌, ◌↔◌, ◌⊎◌, inl, inr, Bool, true, false, not, ◌&&◌, ◌||◌, Option,
  none, some, List, [], ◌∷◌, ◌++◌, map, arith,
}
use cctv_timeline_viewer_cor.Player.Video.{
  Transport, is_native, is_mp4, is_hls, Key, same_key, EndProgress, Progress, Delivery,
  StartProgress, Mode, is_hold, is_prime, is_flow, Preparation, SourceKey, Video, have_metadata,
  have_current_data, have_future_data, has_recording, is_active, recording_number, distance,
  no_transport, native, mp4, hls, hold, prime, flow,
}
use cctv_timeline_viewer_cor.Player.World.{
  World, Ledger, time_number, anchor, find_camera, recorded_at, output_fps, show_failed, show_tail,
  show_recording, find_in, find_recording_at, video_playback_rate, video_buffer_duration,
  video_target_time, absolute_video_time,
}
use cctv_timeline_viewer_cor.Player.Ready.{
  ahead_in, buffered_ahead_at, buffer_covers_native_tail, required_buffer, last_end, media_key,
  same_number, moved, same_progress, native_tail, frozen_at_end, completed, new_progress,
  judge_progress, video_reached_end, target_key, started_from, native_startup_ready, near_end,
  minimum_ready, buffer_fills, buffered_for, video_has_playback_buffer, keep_video_warming,
  delivered, track_native_delivery, receiving, advancing, native_delivery_active, target_ready,
  native_recovery_target_ready, media_alignment_tolerance, misaligned, recovery_video_failed,
  greatest_speed, playback_spread_limit,
}
use cctv_timeline_viewer_cor.Player.Source.{
  pause_video, play_video, load, seek_element, release, cancelled_source, cancel_hls_source,
  failed_video, fail_video, original_duration, stream_offset_of, stream_duration_of, describe,
  prepare, sourced, show_nothing, source_in, update_player_cell, seek_applies, seek_video,
  source_key, restart_progressive_video, native_priming_rate, set_native_priming_rate, reload_key,
  is_reloaded, same_recording, reload_native_recovery,
}
use cctv_timeline_viewer_cor.Player.Warm.{
  play_if_paused, pause_if_playing, seek_if_misaligned, flows, let_flow, hold_ready_native_target,
  prepared_for, grown, may_prime, primed, pulsed, hold_native_target, last_progress, pulse_failed,
  is_primed, prefetch_stalled_in, recover_stalled_native_prefetch, same_seek, fetch_target, refetch,
  start_warming, awaits_decoder, warm_target, warm_native_buffer,
}

pub record Player : Type 0 where
  pub world : World
  pub ledger : Ledger
  pub videos : List Video
  -- `playbackDiagnostics`
  pub recoveries : ℕ
  pub buffering_ms : ℕ
  -- `_tickId` is set
  pub ticking : Bool

-- An operation on one video.
abbrev pub Operation : Type 0
Operation = World → Ledger → Video → Ledger × Video

unfoldable pub each : Operation → World → Ledger → List Video → Ledger × List Video
each op w l [] = (l, [])
each op w l (v ∷ videos) =
    let one : Ledger × Video = op w l v in
    let others : Ledger × List Video = each op w one.0 videos in (others.0, one.1 ∷ others.1)

-- `activeVideos().forEach`
abbrev pub if_active : Operation → Operation
if_active op w l v = if is_active v then op w l v else (l, v)

-- `finishRecovery`
unfoldable pub finish_recovery : Player → Player
finish_recovery p = record p {
  buffering_ms = elim (p.world.recovery_started) [
    | none ↦ p.buffering_ms
    | some began ↦ p.buffering_ms + (p.world.now - began)
  ];
  world = record p.world { recovery_started = none };
}

-- A video that must fill its buffer first.
abbrev pub starve : World → Ledger → Video → Ledger × Video
starve w l v =
    let target : ℕ = video_target_time w v in
    let warm : Video = record v { warming = true; preload_auto = true } in
    let preload_only : Bool =
      is_native v.transport && not v.preload_auto && not (buffer_fills w v target) in
    let again : Bool × Ledger × Video = reload_native_recovery w l warm target in
    let held : Bool × Video = hold_native_target w (set_native_priming_rate warm) target in
    let compressed : Video = record warm { rate = video_playback_rate w v } in
    if preload_only && again.0
    then (again.1, again.2)
    else (if is_native v.transport
        then (l, if held.0 then held.1 else play_video (set_native_priming_rate warm))
        else (
          l,
          if not (is_mp4 v.transport) || not v.has_played
              then play_video compressed
              else compressed,
        ))

-- What `enterBufferingBarrier` does to an active video.
unfoldable pub hold_back : Bool → Operation
hold_back already w l v =
    let stopped : Video = pause_video (record v { sync_held = false }) in
    let fresh : Video = if already then stopped else record stopped { recovery_seek = none } in
    let ready : Bool × Video = video_has_playback_buffer w fresh in
    if (already && v.warming)
      || ((elim (v.job) [ none ↦ false | some j ↦ true ]) && not v.has_source)
    then (l, v)
    else (if not ready.0 then starve w l ready.1 else (l, record (ready.1) { warming = false }))

-- The video that waits, if one does: `source.dataset.driftSeek = '0'` and its message.
abbrev pub mark_waiting : Option ℕ → Video → Video
mark_waiting none v = v
mark_waiting (some camera) v =
    if v.camera == camera then record v { drift_seek = false; buffering = true } else v

abbrev pub mute : Video → Video
mute v = record v { muted = true }

-- The deadline of a recovery is that of its first wait.
abbrev pub begun : Option ℕ → ℕ → Option ℕ
begun none now = some now
begun (some began) now = some began

abbrev pub barrier_world : World → World
barrier_world w = record w {
  was_buffering = true;
  recovery_started = begun w.recovery_started w.now;
}

-- `enterBufferingBarrier`
unfoldable pub enter_buffering_barrier : Option ℕ → Player → Player
enter_buffering_barrier source p =
    let marked : List Video = map {A = Video} (mark_waiting source) p.videos in
    let world : World = barrier_world p.world in
    let held : Ledger × List Video =
      each (if_active (hold_back p.world.was_buffering)) world p.ledger
        (map {A = Video} mute marked) in
    if not p.world.playing then record p { videos = marked } else record p {
      world = world;
      recoveries = elim (p.world.recovery_started) [
        | none ↦ p.recoveries + 1
        | some began ↦ p.recoveries
      ];
      ledger = anchor world held.0;
      videos = held.1;
    }

-- One video of `alignVideos`: whether it is aligned, whether it was restarted, and what is after.
abbrev pub realign : World → Ledger → Video → (Bool × Bool) × Ledger × Video
realign w l v =
    let again : Bool × Ledger × Video = restart_progressive_video w l v in
    if leb v.duration (video_target_time w v + 500) && is_mp4 v.transport
    then ((true, false), l, v)
    else (if is_mp4 v.transport
        then ((false, again.0), again.1, again.2)
        else ((false, false), l, record ((seek_video w v).1) { buffering = true }))

unfoldable pub align_video : World → Ledger → Video → (Bool × Bool) × Ledger × Video
align_video w l v =
    if not w.playing
    then ((false, false), l, v)
    else (if not (has_recording v) || (elim (w.current_time) [ none ↦ true | some t ↦ false ])
        then ((true, false), l, v)
        else (if ltb v.ready_state have_metadata || v.seeking
            then ((false, false), l, v)
            else (if misaligned w v then realign w l v else ((true, false), l, v))))

-- The loop over the active videos.
unfoldable pub align_each : World → Ledger → List Video → (Bool × Bool) × Ledger × List Video
align_each w l [] = ((true, false), l, [])
align_each w l (v ∷ videos) =
    let one : (Bool × Bool) × Ledger × Video =
      if is_active v then align_video w l v else ((true, false), l, v) in
    let others : (Bool × Bool) × Ledger × List Video = align_each w one.1 videos in
    ((one.0.0 && others.0.0, one.0.1 || others.0.1), others.1, one.2 ∷ others.2)

-- `alignVideos`; a restarted stream enters the barrier anew.
unfoldable pub align_videos : Player → Bool × Player
align_videos p =
    let looped : (Bool × Bool) × Ledger × List Video = align_each p.world p.ledger p.videos in
    let moved : Player = record p { ledger = looped.1; videos = looped.2 } in
    let anew : Player =
      enter_buffering_barrier none
        (record moved { world = record moved.world { was_buffering = false } }) in
    (looped.0.0, if looped.0.1 && p.world.playing then anew else moved)
