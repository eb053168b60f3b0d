-- ===== src/Player/Ready.antt =====
-- The predicates on a video. Three of them remember on the video what they saw, so they return it.
use cctv_timeline_viewer_cor.Base.{
  ltb, leb, ◌==◌, if◌then◌else◌, length, any, ℕ, ◌+◌, ◌-◌, ◌*◌, ◌/◌, max, Bool, true, false, not,
  ◌&&◌, ◌||◌, Option, none, some, List, [], ◌∷◌,
}
use cctv_timeline_viewer_cor.Media.Playback.{playback_completed, required_playback_buffer}
use cctv_timeline_viewer_cor.Player.Video.{
  is_native, is_mp4, is_hls, Key, same_key, EndProgress, Delivery, StartProgress, Video,
  have_metadata, have_current_data, have_future_data, has_recording, recording_number, distance,
}
use cctv_timeline_viewer_cor.Player.World.{
  World, video_playback_rate, video_buffer_duration, video_target_time,
}

-- The first range with the position in it, up to 0.05 s before it.
unfoldable pub ahead_in : List (ℕ × ℕ) → ℕ → ℕ
ahead_in [] current = 0
ahead_in ((a, b) ∷ ranges) current =
    let others = ahead_in ranges current in
    if leb a (current + 50) && leb current b then b - current else others

abbrev pub buffered_ahead_at : Video → ℕ → ℕ
buffered_ahead_at v current = ahead_in v.buffered current

-- `bufferCoversNativeTail`
unfoldable pub buffer_covers_native_tail : Video → ℕ → Bool
buffer_covers_native_tail v duration =
    any {A = ℕ × ℕ}
      (λ r. leb r.0 v.current_time && leb v.current_time (r.1 + 2) && leb duration (r.1 + 2))
      v.buffered

-- `requiredBuffer`
unfoldable pub required_buffer : World → Video → ℕ → ℕ
required_buffer w v current =
    required_playback_buffer (video_playback_rate w v) current (video_buffer_duration v)
      (w.was_buffering || not w.playing)

-- The end of the last range.
unfoldable pub last_end : List (ℕ × ℕ) → Option ℕ
last_end [] = none
last_end (r ∷ ranges) = elim (last_end ranges) [ none ↦ some (r.1) | some e ↦ some e ]

abbrev pub media_key : Video → Key
media_key v = (0, v.generation, recording_number v)

abbrev pub same_number : Option ℕ → Option ℕ → Bool
same_number none none = true
same_number none (some b) = false
same_number (some a) none = false
same_number (some a) (some b) = a == b

-- `Math.abs(a - b) > 0.001`
abbrev pub moved : ℕ → ℕ → Bool
moved a b = ltb 1 (distance a b)

abbrev pub same_progress : Video → EndProgress → Bool
same_progress v p =
    same_key p.key (media_key v)
    && not (moved v.current_time p.time)
    && same_number v.media_duration p.duration
    && same_number (last_end v.buffered) p.buffered_end

-- `nativeTail` of `videoReachedEnd`, for a known duration
abbrev pub native_tail : Video → ℕ → Bool
native_tail v duration =
    is_native v.transport
    && v.ready_state == have_current_data
    && ltb 0 duration
    && leb duration (v.current_time + 500)
    && leb v.current_time duration
    && buffer_covers_native_tail v duration

-- What `videoReachedEnd` asks of a video whose progress has not changed since.
abbrev pub frozen_at_end : World → Video → ℕ → ℕ → Bool
frozen_at_end w v since duration =
    (native_tail v duration || v.network_state == 1)
    && ltb 0 duration
    && (not (is_hls v.transport) || (has_recording v && leb v.duration (duration + 80)))
    && (native_tail v duration || leb duration (v.current_time + 80))
    && leb v.current_time (duration + 80)
    && (elim (last_end v.buffered) [ none ↦ false | some e ↦ leb duration (e + 80) ])
    && leb (since + 1500) w.now

abbrev pub completed : World → Video → Bool
completed w v = playback_completed (record {
  ended = v.ended;
  current_time = v.current_time;
  expected_duration = if has_recording v then some v.duration else none;
  actual_duration = v.media_duration;
  metadata_ready = v.metadata_ready;
  has_played = v.has_played;
  buffering = w.was_buffering;
  warming = v.warming;
})

-- The progress to remember from here on.
abbrev pub new_progress : World → Video → EndProgress
new_progress w v = record {
  key = media_key v;
  time = v.current_time;
  duration = v.media_duration;
  buffered_end = last_end v.buffered;
  since = w.now;
}

abbrev pub judge_progress : World → Video → Option EndProgress → Bool × Video
judge_progress w v none = (false, record v { end_progress = some (new_progress w v) })
judge_progress w v (some p) =
    if not (same_progress v p)
    then (false, record v { end_progress = some (new_progress w v) })
    else (elim (v.media_duration) [ none ↦ false | some d ↦ frozen_at_end w v p.since d ], v)

unfoldable pub video_reached_end : World → Video → Bool × Video
video_reached_end w v =
    if completed w v
    then (true, v)
    else (if not w.playing || v.seeking || not v.metadata_ready || not v.has_played
        then (false, record v { end_progress = none })
        else judge_progress w v v.end_progress)

-- `${_playbackEpoch}:${video._generation}:${target}`
abbrev pub target_key : World → Video → ℕ → Key
target_key w v target = (w.epoch, v.generation, target)

abbrev pub started_from : Key → Video → Option StartProgress → StartProgress
started_from key v none = record { key = key; time = v.current_time; confirmed = false }
started_from key v (some s) =
    if same_key s.key key then s else record { key = key; time = v.current_time; confirmed = false }

-- `nativeStartupReady`
unfoldable pub native_startup_ready : World → Video → Bool × Video
native_startup_ready w v =
    let s : StartProgress =
      started_from (target_key w v (video_target_time w v)) v v.start_progress in
    let confirmed : Bool = leb 50 (distance v.current_time s.time) || s.confirmed in
    if leb 4 v.ready_state
    then (true, v)
    else (confirmed, record v { start_progress = some (record s { confirmed = confirmed }) })

-- `Number.isFinite(duration) && position >= duration - 0.5`
abbrev pub near_end : ℕ → Option ℕ → Bool
near_end position none = false
near_end position (some d) = leb d (position + 500)

abbrev pub minimum_ready : Video → ℕ
minimum_ready v = if is_native v.transport then have_future_data else have_current_data

abbrev pub buffer_fills : World → Video → ℕ → Bool
buffer_fills w v position = leb (required_buffer w v position) (buffered_ahead_at v position)

-- The part of `videoHasPlaybackBuffer` after the test for the end; the start is only asked of a
-- warming native video.
abbrev pub buffered_for : World → Video → Bool × Video
buffered_for w v =
    let warms : Bool =
      v.warming && has_recording v && elim (w.current_time) [ none ↦ false | some t ↦ true ] in
    let position : ℕ = if warms then video_target_time w v else v.current_time in
    let startup : Bool × Video = native_startup_ready w v in
    if near_end position (video_buffer_duration v)
    then (not v.seeking && leb (minimum_ready v) v.ready_state, v)
    else (if warms
        then (if v.seeking || ltb v.ready_state (minimum_ready v)
            then (false, v)
            else (if not (is_native v.transport)
                then (buffer_fills w v position, v)
                else (startup.0 && buffer_fills w v position, startup.1)))
        else (not v.seeking && leb have_future_data v.ready_state && buffer_fills w v position, v))

unfoldable pub video_has_playback_buffer : World → Video → Bool × Video
video_has_playback_buffer w v =
    let reached : Bool × Video = video_reached_end w v in
    if not v.metadata_ready
    then (false, v)
    else (if reached.0 then (true, reached.1) else buffered_for w reached.1)

-- `keepVideoWarming`
abbrev pub keep_video_warming : Video → Bool
keep_video_warming v = v.warming && (is_native v.transport || is_hls v.transport)

-- `trackNativeDelivery`: only an end further than any before counts.
abbrev pub delivered : World → Video → Key → Option Delivery → Delivery
delivered w v key none = record { key = key; end = 0; advanced = none }
delivered w v key (some d) =
    if same_key d.key key then d else record { key = key; end = 0; advanced = none }

unfoldable pub track_native_delivery : World → Video → Video
track_native_delivery w v =
    let d : Delivery = delivered w v (w.epoch, v.generation, recording_number v) v.delivery in
    let end : ℕ = elim (last_end v.buffered) [ none ↦ 0 | some e ↦ e ] in
    if not (is_native v.transport) then v else record v {
      delivery =
          some (if ltb (d.end + 50) end then record d { end = end; advanced = some w.now } else d);
    }

-- `nativeDeliveryActive`
abbrev pub receiving : World → Video → Bool
receiving w v = elim (v.load_progress) [
  | none ↦ false
  | some (generation, wall) ↦ generation == v.generation && ltb w.now (wall + 30000)
]

abbrev pub advancing : World → Video → Bool
advancing w v = elim (v.delivery) [
  | none ↦ false
  | some d ↦ elim (d.advanced) [ none ↦ false | some wall ↦ ltb w.now (wall + 30000) ]
]

unfoldable pub native_delivery_active : World → Video → Bool
native_delivery_active w v =
    if not (is_native v.transport)
      || (elim (v.error) [ none ↦ false | some e ↦ true ])
      || not (v.network_state == 2)
      || leb 4 v.ready_state
    then false
    else (if v.ready_state == have_metadata && length v.buffered == 0
        then receiving w v
        else (leb have_current_data v.ready_state
            && ltb 0 (buffered_ahead_at v (video_target_time w v))
            && (advancing w v || receiving w v)))

-- `nativeRecoveryTargetReady`
abbrev pub target_ready : World → Video → Bool × Video
target_ready w v =
    let target : ℕ = video_target_time w v in
    let startup : Bool × Video = native_startup_ready w v in
    if near_end target (video_buffer_duration v)
    then (if leb have_future_data v.ready_state then (true, v) else video_reached_end w v)
    else (if ltb v.ready_state have_future_data
        then (false, v)
        else (startup.0 && buffer_fills w v target, startup.1))

unfoldable pub native_recovery_target_ready : World → Video → Bool × Video
native_recovery_target_ready w v =
    if not v.metadata_ready || v.seeking || ltb v.ready_state have_current_data
    then (false, v)
    else target_ready w v

-- `MEDIA_ALIGNMENT_TOLERANCE`
abbrev pub media_alignment_tolerance : ℕ
media_alignment_tolerance = 100

abbrev pub misaligned : World → Video → Bool
misaligned w v = ltb media_alignment_tolerance (distance v.current_time (video_target_time w v))

-- `recoveryVideoFailed`
unfoldable pub recovery_video_failed : World → Video → Bool × Video
recovery_video_failed w v =
    let aligned : Bool × Video =
      if is_native v.transport then native_recovery_target_ready w v else (false, v) in
    let ready : Bool × Video = video_has_playback_buffer w aligned.1 in
    if aligned.0
    then (false, aligned.1)
    else (if not ready.0
        then (true, ready.1)
        else (if is_mp4 v.transport && leb v.duration (video_target_time w v + 500)
            then (false, ready.1)
            else (misaligned w v, ready.1)))

-- `Math.max(1, ...videos.map(video => Number(streamSpeed) || 1))`
unfoldable pub greatest_speed : List Video → ℕ
greatest_speed [] = 1000
greatest_speed (v ∷ videos) =
    let others = greatest_speed videos in
    max (if has_recording v && not (v.stream_speed == 0) then v.stream_speed else 1000) others

-- `playbackSpreadLimit`
unfoldable pub playback_spread_limit : World → List Video → ℕ
playback_spread_limit w videos =
    max (if leb 8000 w.speed then 500 else 250)
      (2 * media_alignment_tolerance * greatest_speed videos / 1000)
