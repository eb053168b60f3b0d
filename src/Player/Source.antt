-- ===== src/Player/Source.antt =====
-- The operations that give a video its source, take it away, and move it. What the element does at
-- once is written out: `pause` and `play` change `paused`, `load` empties the media, and a new
-- `currentTime` starts a seek. What follows later is an event of its own.
pub mod Failing
pub mod Restarts
use Prim.Native.String.{String}
use cctv_timeline_viewer_cor.Base.{
  ltb, leb, ◌==◌, if◌then◌else◌, ltb→lt, lt→ltb, leb→le, ==_iff, le→leb, ltb-false, leb-false,
  ne_test, tests, Bool-cases, Option-cases, ◌>>=◌, length, get_elem?, filter, any, find,
  length-append, get_elem?-lt, get_elem?-some, ◌∈◌, get_elem?-∈, ∈-get_elem?, Extended, lte,
  lt_extended, max_extended, lte_trans, lte-total, lte_refl, lte-max_left, lte-max_right,
  minus_infinity, finite, plus_infinity, ℕ, zero, suc, ◌+◌, ◌-◌, ◌*◌, ◌/◌, ◌%◌, ◌^◌, ◌≤◌, ◌<◌, min,
  max, ◌≡◌, refl, sym, ap, ◌∙◌, ◌≢◌, ◌↔◌, ◌⊎◌, inl, inr, Bool, true, false, not, ◌&&◌, ◌||◌, Option,
  none, some, List, [], ◌∷◌, ◌++◌, map, arith,
}
use cctv_timeline_viewer_cor.Recording.{Segment}
use cctv_timeline_viewer_cor.Media.Playback.{PlaybackPlan, playback_plan}
use cctv_timeline_viewer_cor.Player.Video.{
  Transport, is_native, is_mp4, is_hls, Key, same_key, EndProgress, Progress, Delivery,
  StartProgress, Mode, is_hold, is_prime, is_flow, Preparation, SourceKey, Video, have_metadata,
  have_current_data, have_future_data, has_recording, is_active, recording_number, distance,
  no_transport, native, mp4, hls, hold, prime, flow,
}
use cctv_timeline_viewer_cor.Player.World.{
  World, Ledger, time_number, anchor, find_camera, recorded_at, output_fps, show_failed, show_tail,
  show_recording, find_in, find_recording_at, video_playback_rate, video_buffer_duration,
  video_target_time, absolute_video_time,
}
use cctv_timeline_viewer_cor.Player.Ready.{
  ahead_in, buffered_ahead_at, buffer_covers_native_tail, required_buffer, last_end, media_key,
  same_number, moved, same_progress, native_tail, frozen_at_end, completed, new_progress,
  judge_progress, video_reached_end, target_key, started_from, native_startup_ready, near_end,
  minimum_ready, buffer_fills, buffered_for, video_has_playback_buffer, keep_video_warming,
  delivered, track_native_delivery, receiving, advancing, native_delivery_active, target_ready,
  native_recovery_target_ready, media_alignment_tolerance, misaligned, recovery_video_failed,
  greatest_speed, playback_spread_limit,
}

-- `pauseVideo`
abbrev pub pause_video : Video → Video
pause_video v = record v { play_attempt = v.play_attempt + 1; muted = true; paused = true }

-- `playVideo`, up to the answer of the element
abbrev pub play_video : Video → Video
play_video v = record v { play_attempt = v.play_attempt + 1; paused = false }

-- `video.load()`
abbrev pub load : Video → Video
load v = record v {
  ready_state = 0;
  seeking = false;
  ended = false;
  current_time = 0;
  media_duration = none;
  buffered = [];
}

abbrev pub seek_element : ℕ → Video → Video
seek_element target v = record v { current_time = target; seeking = true }

-- The session that is released, if there is one.
abbrev pub release : Option ℕ → Ledger → Ledger
release none l = l
release (some job) l = record l { released = job ∷ l.released }

-- `cancelHlsSource`
abbrev pub cancelled_source : Video → Video
cancelled_source v =
    let stopped : Video =
      load (record (pause_video v) { generation = v.generation + 1; has_source = false }) in
    elim (v.job) [ none ↦ stopped | some j ↦ record stopped { job = none; cancelled = true } ]

unfoldable pub cancel_hls_source : Ledger → Video → Ledger × Video
cancel_hls_source l v = (release v.job l, cancelled_source v)

-- `failVideo`; the reason, which only the message shows, is left out.
abbrev pub failed_video : Video → Video
failed_video v = record (cancelled_source v) {
  failed = true;
  buffering = false;
  warming = false;
  hidden = true;
}

unfoldable pub fail_video : World → Ledger → Video → Ledger × Video
fail_video w l v = elim (v.recording) [
  | none ↦ (l, v)
  | some r ↦ (
    anchor w (record (release v.job l) { failed_recordings = r ∷ l.failed_recordings }),
    failed_video v,
  )
]

-- `rec.duration ?? Math.max(0, (rec.end_ts ?? rec.start_ts) - rec.start_ts)`
abbrev pub original_duration : Segment → ℕ
original_duration rec = elim (rec.duration) [
  | some d ↦ d
  | none ↦ elim (rec.end_ts) [ none ↦ 0 | some end ↦ end - rec.start_ts ]
]

abbrev pub stream_offset_of : World → PlaybackPlan → Segment → ℕ
stream_offset_of w plan rec =
    if plan.transcoded
    then min (original_duration rec - 50)
        (elim (w.current_time) [ none ↦ 0 | some t ↦ t - rec.start_ts ])
    else 0

abbrev pub stream_duration_of : World → PlaybackPlan → Segment → ℕ
stream_duration_of w plan rec =
    if plan.transcoded
    then (original_duration rec - stream_offset_of w plan rec) * 1000 / plan.stream_speed
    else original_duration rec

-- The data of the cell for a recording.
abbrev pub describe : World → PlaybackPlan → Segment → Video → Video
describe w plan rec v = record v {
  recovery_attempts = if same_number v.recording (some rec.id) then v.recovery_attempts else 0;
  recording = some rec.id;
  start = rec.start_ts;
  stream_offset = stream_offset_of w plan rec;
  stream_speed = plan.stream_speed;
  playback_rate = plan.playback_rate;
  duration = stream_duration_of w plan rec;
  transport = no_transport;
  transitioning = none;
  buffering = true;
  failed = false;
}

-- The element before its source is set.
abbrev pub prepare : World → PlaybackPlan → Video → Video
prepare w plan v = record (pause_video v) {
  has_played = false;
  metadata_ready = false;
  drift_seek = false;
  sync_held = false;
  warming = false;
  end_progress = none;
  hidden = false;
  buffering = true;
  rate = plan.playback_rate;
  preload_auto = if not plan.transcoded && w.playing then true else w.preload_auto;
  cancelled = false;
}

-- The source: a session of the server is asked for, or the file is loaded.
abbrev pub sourced : World → PlaybackPlan → Ledger → Video → Ledger × Video
sourced w plan l v =
    if plan.transcoded
    then (
      record l { next_session = l.next_session + 1 },
      record v { job = some l.next_session; transport = if w.native_hls then hls else mp4 },
    )
    else (l, load (record v { transport = native; has_source = true }))

abbrev pub show_nothing : Video → Video
show_nothing v = load (record (pause_video v) {
  recording = none;
  transport = no_transport;
  cancelled = false;
  transitioning = none;
  buffering = false;
  failed = false;
  has_played = false;
  metadata_ready = false;
  drift_seek = false;
  warming = false;
  sync_held = false;
  has_source = false;
  hidden = true;
})

abbrev pub source_in : World → Ledger → Video → Option Segment → Ledger × Video
source_in w l v none = (l, show_nothing v)
source_in w l v (some rec) =
    let plan : PlaybackPlan = playback_plan w.profile (some w.speed) in
    let described : Video = describe w plan rec v in
    if any (λ r. r == rec.id) l.failed_recordings
    then fail_video w l described
    else sourced w plan l (prepare w plan described)

-- `updatePlayerCell`
unfoldable pub update_player_cell : World → Ledger → Video → Option Segment → Ledger × Video
update_player_cell w l v rec =
    let cleared : Ledger × Video = cancel_hls_source l v in source_in w cleared.0 cleared.1 rec

-- `seekVideo`: whether the video follows, and the video after.
abbrev pub seek_applies : Video → ℕ → Bool
seek_applies v target =
    (ltb v.ready_state have_current_data && ltb 50 target)
    || (leb have_current_data v.ready_state && ltb 50 (distance v.current_time target))

unfoldable pub seek_video : World → Video → Bool × Video
seek_video w v =
    let target : ℕ = video_target_time w v in
    let sought : Video = seek_element target (record v { muted = true }) in
    if v.failed
      || (elim (w.current_time) [ none ↦ true | some t ↦ false ])
      || ltb v.ready_state have_metadata
      || v.seeking
    then (false, v)
    else (if is_mp4 v.transport || not (seek_applies v target) then (true, v) else (
      true,
      if w.playing && w.was_buffering && is_hls v.transport
          then play_video (record sought { warming = true })
          else sought,
    ))

-- `playerSourceKey`
abbrev pub source_key : World → Option Segment → SourceKey
source_key w none = record { recording = none; profile = ""; stream_speed = 0; revision = 0 }
source_key w (some rec) = record {
  recording = some rec.id;
  profile = w.profile;
  stream_speed = (playback_plan w.profile (some w.speed)).stream_speed;
  revision = w.profile_revision;
}

-- `restartProgressiveVideo`: after three restarts the video fails.
unfoldable pub restart_progressive_video : World → Ledger → Video → Bool × Ledger × Video
restart_progressive_video w l v =
    let failed : Ledger × Video = fail_video w l v in
    let rec : Option Segment = find_recording_at w l v.camera w.current_time in
    let again : Ledger × Video =
      update_player_cell w (record l { restarts = l.restarts + 1 })
        (pause_video (record v { recovery_attempts = v.recovery_attempts + 1 })) rec in
    if ltb 3 (v.recovery_attempts + 1)
    then (false, failed.0, failed.1)
    else (true, again.0, record (again.1) { cached = some (source_key w rec) })

-- `NATIVE_PRIMING_RATE`
abbrev pub native_priming_rate : ℕ
native_priming_rate = 1000

abbrev pub set_native_priming_rate : Video → Video
set_native_priming_rate v = record v { rate = native_priming_rate }

abbrev pub reload_key : World → Video → ℕ → Key
reload_key w v target = (w.epoch, recording_number v, target)

abbrev pub is_reloaded : Option Key → Key → Bool
is_reloaded none key = false
is_reloaded (some k) key = same_key k key

-- The recording at the clock, where it is the one of the video.
abbrev pub same_recording : Video → Option Segment → Bool
same_recording v none = false
same_recording v (some rec) = same_number v.recording (some rec.id)

-- `reloadNativeRecovery`: once for a target, and only for the recording that the clock is in.
unfoldable pub reload_native_recovery : World → Ledger → Video → ℕ → Bool × Ledger × Video
reload_native_recovery w l v target =
    let key : Key = reload_key w v target in
    let rec : Option Segment = find_recording_at w l v.camera w.current_time in
    let again : Ledger × Video =
      update_player_cell w l (record v { recovery_reload = some key }) rec in
    if is_reloaded v.recovery_reload key
      || not (any (λ c. c == v.camera) w.cameras)
      || not (same_recording v rec)
    then (false, l, v)
    else (
      true,
      again.0,
      set_native_priming_rate
          (record (again.1) { warming = true; preload_auto = true; recovery_seek = none }),
    )
