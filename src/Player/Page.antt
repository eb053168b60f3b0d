-- ===== src/Player/Page.antt =====
-- The videos of the page: rendering them for the clock, stopping, and the step over the end of a
-- recording to the next one. Drawing, and the promotion of a camera that goes with a step, which is
-- a matter of Cameras, are left out.
pub mod Next
pub mod Forward
use Prim.Native.String.{String}
use text.Mathlib.Text.{◌==◌ as str_eq}
use cctv_timeline_viewer_cor.Base.{
  ltb, leb, ◌==◌, if◌then◌else◌, ltb→lt, lt→ltb, leb→le, ==_iff, le→leb, ltb-false, leb-false,
  ne_test, tests, Bool-cases, Option-cases, ◌>>=◌, length, get_elem?, filter, any, find,
  length-append, get_elem?-lt, get_elem?-some, ◌∈◌, get_elem?-∈, ∈-get_elem?, Extended, lte,
  lt_extended, max_extended, lte_trans, lte-total, lte_refl, lte-max_left, lte-max_right,
  minus_infinity, finite, plus_infinity, ℕ, zero, suc, ◌+◌, ◌-◌, ◌*◌, ◌/◌, ◌%◌, ◌^◌, ◌≤◌, ◌<◌, min,
  max, ◌≡◌, refl, sym, ap, ◌∙◌, ◌≢◌, ◌↔◌, ◌⊎◌, inl, inr, Bool, true, false, not, ◌&&◌, ◌||◌, Option,
  none, some, List, [], ◌∷◌, ◌++◌, map, arith,
}
use cctv_timeline_viewer_cor.Recording.{Segment, CameraTrack, Timeline}
use cctv_timeline_viewer_cor.Player.Video.{
  Transport, is_native, is_mp4, is_hls, Key, same_key, EndProgress, Progress, Delivery,
  StartProgress, Mode, is_hold, is_prime, is_flow, Preparation, SourceKey, Video, have_metadata,
  have_current_data, have_future_data, has_recording, is_active, recording_number, distance,
  no_transport, native, mp4, hls, hold, prime, flow,
}
use cctv_timeline_viewer_cor.Player.World.{
  World, Ledger, time_number, anchor, find_camera, recorded_at, output_fps, show_failed, show_tail,
  show_recording, find_in, find_recording_at, video_playback_rate, video_buffer_duration,
  video_target_time, absolute_video_time,
}
use cctv_timeline_viewer_cor.Player.Ready.{
  ahead_in, buffered_ahead_at, buffer_covers_native_tail, required_buffer, last_end, media_key,
  same_number, moved, same_progress, native_tail, frozen_at_end, completed, new_progress,
  judge_progress, video_reached_end, target_key, started_from, native_startup_ready, near_end,
  minimum_ready, buffer_fills, buffered_for, video_has_playback_buffer, keep_video_warming,
  delivered, track_native_delivery, receiving, advancing, native_delivery_active, target_ready,
  native_recovery_target_ready, media_alignment_tolerance, misaligned, recovery_video_failed,
  greatest_speed, playback_spread_limit,
}
use cctv_timeline_viewer_cor.Player.Source.{
  pause_video, play_video, load, seek_element, release, cancelled_source, cancel_hls_source,
  failed_video, fail_video, original_duration, stream_offset_of, stream_duration_of, describe,
  prepare, sourced, show_nothing, source_in, update_player_cell, seek_applies, seek_video,
  source_key, restart_progressive_video, native_priming_rate, set_native_priming_rate, reload_key,
  is_reloaded, same_recording, reload_native_recovery,
}
use cctv_timeline_viewer_cor.Player.Barrier.{
  Player, Operation, each, if_active, finish_recovery, starve, hold_back, mark_waiting, mute, begun,
  barrier_world, enter_buffering_barrier, realign, align_video, align_each, align_videos,
}

-- A new cell, with what an element has before anything is set.
abbrev pub new_video : ℕ → Video
new_video camera = record {
  camera = camera;
  recording = none;
  start = 0;
  stream_offset = 0;
  stream_speed = 0;
  playback_rate = 0;
  duration = 0;
  transport = no_transport;
  transitioning = none;
  buffering = false;
  failed = false;
  cancelled = false;
  job = none;
  metadata_ready = false;
  has_played = false;
  drift_seek = false;
  warming = false;
  sync_held = false;
  recovery_attempts = 0;
  generation = 0;
  play_attempt = 0;
  has_source = false;
  preload_auto = false;
  hidden = true;
  muted = true;
  paused = true;
  seeking = false;
  ended = false;
  error = none;
  ready_state = 0;
  network_state = 0;
  rate = 1000;
  current_time = 0;
  media_duration = none;
  buffered = [];
  end_progress = none;
  playback_progress = none;
  delivery = none;
  load_progress = none;
  start_progress = none;
  preparation = none;
  recovery_seek = none;
  recovery_reload = none;
  prefetch_seek = none;
  cached = none;
}

abbrev pub same_source : SourceKey → SourceKey → Bool
same_source a b =
    same_number a.recording b.recording
    && str_eq a.profile b.profile
    && a.stream_speed == b.stream_speed
    && a.revision == b.revision

abbrev pub needs_update : Bool → Option SourceKey → SourceKey → Bool
needs_update force none key = true
needs_update force (some cached) key = force || not (same_source cached key)

abbrev pub is_some : Option Segment → Bool
is_some none = false
is_some (some s) = true

abbrev pub has_time : World → Bool
has_time w = elim (w.current_time) [ none ↦ false | some t ↦ true ]

-- The cell of one camera in `renderPlayers`.
unfoldable pub render_video : Bool → Operation
render_video force w l v =
    let rec : Option Segment = find_recording_at w l v.camera w.current_time in
    let again : Ledger × Video = update_player_cell w l v rec in
    let shown : Ledger × Video =
      if needs_update force v.cached (source_key w rec)
      then (again.0, record (again.1) { cached = some (source_key w rec) })
      else (l, v) in
    if is_some rec && has_time w then (shown.0, (seek_video w shown.1).1) else shown

abbrev pub video_of : ℕ → List Video → Option Video
video_of camera videos = find {A = Video} (λ v. v.camera == camera) videos

-- The cells of cameras that are no longer displayed give up their sources.
unfoldable pub remove_others : List ℕ → Ledger → List Video → Ledger
remove_others displayed l [] = l
remove_others displayed l (v ∷ videos) =
    remove_others displayed
      (if any (λ c. c == v.camera) displayed then l else (cancel_hls_source l v).0) videos

-- The cells in the order of the cameras, those of new cameras among them.
unfoldable pub cells : List ℕ → List Video → List Video
cells [] videos = []
cells (camera ∷ displayed) videos =
    (elim (video_of camera videos) [ none ↦ new_video camera | some v ↦ v ])
    ∷ cells displayed videos

-- `renderPlayers`
unfoldable pub render_players : Bool → Player → Player
render_players force p =
    let ledger : Ledger = remove_others p.world.displayed p.ledger p.videos in
    let rendered : Ledger × List Video =
      each (render_video force) p.world ledger (cells p.world.displayed p.videos) in
    record p { ledger = rendered.0; videos = rendered.1 }

-- One video of `stopPlayback`. Without `immediate` a session is released later, by `paused_release`.
unfoldable pub stop_video : Bool → Operation
stop_video immediate w l v =
    let stopped : Video = record (pause_video (record v { warming = false; sync_held = false })) {
      preload_auto = w.preload_auto;
    } in
    if immediate && (elim (v.job) [ none ↦ false | some j ↦ true ])
    then cancel_hls_source l stopped
    else (l, stopped)

-- `stopPlayback`
unfoldable pub stop_playback : Bool → Player → Player
stop_playback immediate p =
    let quiet : Player = finish_recovery (record p {
      ticking = false;
      world = record p.world { playing = false; was_buffering = false };
    }) in
    let stopped : Ledger × List Video =
      each (stop_video immediate) quiet.world quiet.ledger quiet.videos in
    record quiet { ledger = stopped.0; videos = stopped.1 }

-- The timer of `schedulePausedRelease`, with the generation that it was set for: a whole MP4 stays.
unfoldable pub paused_release : ℕ → Operation
paused_release generation w l v =
    let whole : Bool =
      is_mp4 v.transport
      && ltb 0 v.duration
      && leb v.duration (buffered_ahead_at v v.current_time + v.current_time + 150) in
    if not w.playing && v.generation == generation && not whole
    then cancel_hls_source l v
    else (l, v)

-- The earliest start after a time, of the recordings of the displayed cameras.
unfoldable pub next_segment_start : ℕ → List Segment → Extended → Extended
next_segment_start time [] next = next
next_segment_start time (s ∷ segments) next =
    next_segment_start time segments (
      if ltb time s.start_ts && not (lte next (finite s.start_ts)) then finite s.start_ts else next)

unfoldable pub next_recording_start : List ℕ → ℕ → List CameraTrack → Extended → Extended
next_recording_start displayed time [] next = next
next_recording_start displayed time (camera ∷ cameras) next =
    next_recording_start displayed time cameras (
      if any (λ c. c == camera.camera_id) displayed
      then next_segment_start time camera.segments next
      else next)

abbrev pub records_now : Player → Bool
records_now p =
    any (λ c. is_some (find_recording_at p.world p.ledger c p.world.current_time)) p.world.displayed

-- The clock set to a time, with its anchor.
abbrev pub set_clock : ℕ → Player → Player
set_clock time p =
    let world : World = record p.world { current_time = some time } in
    record p { world = world; ledger = anchor world p.ledger }

-- `cachedId !== nextId`, where a missing entry is unlike any recording and unlike none.
abbrev pub other_recording : Option SourceKey → Option Segment → Bool
other_recording none rec = true
other_recording (some k) none = elim (k.recording) [ none ↦ false | some r ↦ true ]
other_recording (some k) (some rec) = not (same_number k.recording (some rec.id))

abbrev pub cached_of : ℕ → List Video → Option SourceKey
cached_of camera videos = elim (video_of camera videos) [ none ↦ none | some v ↦ v.cached ]

abbrev pub transition : Player → ℕ → Bool
transition p camera =
    other_recording (cached_of camera p.videos)
      (find_recording_at p.world p.ledger camera p.world.current_time)

abbrev pub needs_warmup : Player → ℕ → Bool
needs_warmup p camera =
    is_some (find_recording_at p.world p.ledger camera p.world.current_time) && transition p camera

-- The page follows the clock; a new recording enters the shared barrier.
unfoldable pub follow : Player → Player
follow p =
    let rendered : Player = render_players false p in
    if not (any (transition p) p.world.displayed)
    then p
    else (if p.world.playing && any (needs_warmup p) p.world.displayed
        then enter_buffering_barrier none rendered
        else rendered)

abbrev pub jump_or_stop : Player → Extended → Player
jump_or_stop p (finite start) = follow (set_clock (start + 1) p)
jump_or_stop p minus_infinity = stop_playback false p
jump_or_stop p plus_infinity = stop_playback false p

abbrev pub reconcile_in : Player → Option Timeline → Option ℕ → Player
reconcile_in p none time = p
reconcile_in p (some timeline) none = p
reconcile_in p (some timeline) (some time) =
    if length p.world.displayed == 0
    then stop_playback false p
    else (if records_now p
        then follow p
        else jump_or_stop p
            (next_recording_start p.world.displayed time timeline.cameras plus_infinity))

-- `reconcilePlaybackPosition`
unfoldable pub reconcile_playback_position : Player → Player
reconcile_playback_position p = reconcile_in p p.world.timeline p.world.current_time
