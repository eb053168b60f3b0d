-- ===== src/Player/Warm.antt =====
-- How a native video fills its buffer while the clock waits: it holds its target, is given a short
-- pulse at normal speed when the download stops growing, or is loaded again. The callback on the
-- next frame, which ends a pulse early where the browser has it, is left out: the tick ends it.
use cctv_timeline_viewer_cor.Base.{
  ltb, leb, ◌==◌, if◌then◌else◌, length, ℕ, ◌+◌, max, Bool, true, false, not, ◌&&◌, ◌||◌, Option,
  none, some,
}
use cctv_timeline_viewer_cor.Player.Video.{
  is_native, Key, same_key, is_hold, is_prime, is_flow, Preparation, Video, have_metadata,
  have_future_data, hold, prime, flow,
}
use cctv_timeline_viewer_cor.Player.World.{World, Ledger, video_target_time}
use cctv_timeline_viewer_cor.Player.Ready.{
  buffered_ahead_at, required_buffer, target_key, native_startup_ready, buffer_fills,
  native_recovery_target_ready, media_alignment_tolerance, misaligned,
}
use cctv_timeline_viewer_cor.Player.Source.{
  pause_video, play_video, seek_element, seek_video, set_native_priming_rate,
  reload_native_recovery,
}

abbrev pub play_if_paused : Video → Video
play_if_paused v = if v.paused then play_video v else v

abbrev pub pause_if_playing : Video → Video
pause_if_playing v = if not v.paused then pause_video v else v

abbrev pub seek_if_misaligned : World → Video → Video
seek_if_misaligned w v = if misaligned w v then (seek_video w v).1 else v

-- `preparation?.key === key && preparation.mode === 'flow'`
abbrev pub flows : Option Preparation → Key → Bool
flows none key = false
flows (some p) key = same_key p.key key && is_flow p.mode

-- A video whose buffer fell short again is let flow.
abbrev pub let_flow : World → Video → ℕ → Video
let_flow w v target =
    let ahead : ℕ = buffered_ahead_at v target in
    let flowing : Video = play_if_paused (
      set_native_priming_rate (record v {
        preparation = some (record {
          key = target_key w v target;
          ahead = ahead;
          changed = w.now;
          mode = flow;
          prime_time = 0;
          primed_ahead = none;
        });
      })) in
    if ltb ahead (required_buffer w v target) && leb have_future_data v.ready_state
    then flowing
    else v

-- `holdReadyNativeTarget`
unfoldable pub hold_ready_native_target : World → Video → Video
hold_ready_native_target w v =
    let target : ℕ = video_target_time w v in
    if flows v.preparation (target_key w v target)
    then play_if_paused (seek_if_misaligned w (set_native_priming_rate v))
    else seek_if_misaligned w (let_flow w (pause_if_playing v) target)

-- The preparation for a target: that of the video, or a new one.
abbrev pub prepared_for : World → Video → Key → ℕ → Option Preparation → Preparation
prepared_for w v key ahead none = record {
  key = key;
  ahead = ahead;
  changed = w.now;
  mode = hold;
  prime_time = 0;
  primed_ahead = none;
}
prepared_for w v key ahead (some p) = if same_key p.key key then p else record {
  key = key;
  ahead = ahead;
  changed = w.now;
  mode = hold;
  prime_time = 0;
  primed_ahead = none;
}

-- Growth of the buffer holds again.
abbrev pub grown : World → ℕ → Preparation → Preparation
grown w ahead p =
    if ltb (p.ahead + 10) ahead then record p { ahead = ahead; changed = w.now; mode = hold } else p

abbrev pub may_prime : ℕ → Option ℕ → Bool
may_prime ahead none = true
may_prime ahead (some primed) = ltb (primed + 10) ahead

-- A second without growth starts a pulse, once for a level of the buffer.
abbrev pub primed : World → Video → ℕ → Preparation → Preparation
primed w v ahead p =
    if is_hold p.mode && leb (p.changed + 1000) w.now && may_prime ahead p.primed_ahead
    then record p { mode = prime; prime_time = v.current_time; primed_ahead = some ahead }
    else p

-- The first progress of the media ends it.
abbrev pub pulsed : World → Video → Preparation → Preparation
pulsed w v p =
    if is_prime p.mode && ltb (p.prime_time + 1) v.current_time
    then record p { mode = hold; changed = w.now }
    else p

-- The preparation after what has been seen now.
unfoldable pub prepared_now : World → Video → ℕ → Preparation
prepared_now w v target =
    let ahead : ℕ = buffered_ahead_at v target in
    pulsed w v (
      primed w v ahead
        (grown w ahead (prepared_for w v (target_key w v target) ahead v.preparation)))

abbrev pub prepare_by : Preparation → Video → Video
prepare_by p v =
    let kept : Video = record v { preparation = some p } in
    if is_hold p.mode then pause_if_playing kept else play_if_paused (set_native_priming_rate kept)

-- `holdNativeTarget`: whether there is something to hold, and the video after.
unfoldable pub hold_native_target : World → Video → ℕ → Bool × Video
hold_native_target w v target =
    if ltb v.ready_state have_future_data || leb (buffered_ahead_at v target) 50
    then (false, v)
    else (true, prepare_by (prepared_now w v target) v)

abbrev pub last_progress : Video → ℕ
last_progress v = elim (v.load_progress) [
  | none ↦ 0
  | some (generation, wall) ↦ if generation == v.generation then wall else 0
]

-- A pulse after a seek brought neither growth nor progress for five seconds.
abbrev pub pulse_failed : World → Video → ℕ → ℕ → ℕ → Preparation → Bool
pulse_failed w v target began seek_wall p =
    let ahead : ℕ = buffered_ahead_at v target in
    ltb 50 ahead
    && ltb ahead (required_buffer w v target)
    && leb ahead (p.ahead + 10)
    && ltb w.now (began + 30000)
    && leb (max seek_wall (max p.changed (last_progress v)) + 5000) w.now

abbrev pub is_primed : Preparation → Key → Bool
is_primed p key =
    same_key p.key key && is_hold p.mode && (elim (p.primed_ahead) [ none ↦ false | some a ↦ true ])

abbrev pub prefetch_stalled_in :
    World → Video → ℕ → Option Preparation → Option (Key × ℕ) → Option ℕ → Bool
prefetch_stalled_in w v target none seek began = false
prefetch_stalled_in w v target (some p) none began = false
prefetch_stalled_in w v target (some p) (some s) none = false
prefetch_stalled_in w v target (some p) (some s) (some began) =
    w.playing
    && w.was_buffering
    && not v.seeking
    && (elim (v.error) [ none ↦ true | some e ↦ false ])
    && v.paused
    && is_native v.transport
    && leb have_future_data v.ready_state
    && same_key s.0 (target_key w v target)
    && is_primed p (target_key w v target)
    && pulse_failed w v target began s.1 p

-- `recoverStalledNativePrefetch`
unfoldable pub recover_stalled_native_prefetch : World → Ledger → Video → ℕ → Bool × Ledger × Video
recover_stalled_native_prefetch w l v target =
    let again : Bool × Ledger × Video = reload_native_recovery w l v target in
    if prefetch_stalled_in w v target v.preparation v.prefetch_seek w.recovery_started
    then again
    else (false, l, v)

abbrev pub same_seek : Option (ℕ × ℕ) → ℕ × ℕ → Bool
same_seek none key = false
same_seek (some s) key = s.0 == key.0 && s.1 == key.1

-- The target is asked for once where nothing of it is buffered; then the video plays at normal speed.
abbrev pub fetch_target : Video → ℕ → Video
fetch_target v target =
    let asked : Video =
      seek_element target (record v { recovery_seek = some (v.generation, target) }) in
    play_if_paused (
      set_native_priming_rate (
        if leb have_metadata v.ready_state
          && not (length v.buffered == 0)
          && buffered_ahead_at v target == 0
          && not (same_seek v.recovery_seek (v.generation, target))
        then asked
        else v))

-- The last steps of `warmNativeBuffer`, from the test for a target behind the buffer on.
abbrev pub refetch : World → Ledger → Video → ℕ → Ledger × Video
refetch w l v target =
    let again : Bool × Ledger × Video = reload_native_recovery w l v target in
    let reloads : Bool =
      same_seek v.recovery_seek (v.generation, target)
      && buffered_ahead_at v target == 0
      && ltb (target + media_alignment_tolerance) v.current_time in
    if reloads && again.0 then (again.1, again.2) else (l, fetch_target v target)

abbrev pub start_warming : Video → Video
start_warming v =
    if not v.warming
    then record v { warming = true; recovery_seek = none; preload_auto = true }
    else v

-- The target is buffered, but the decoder has not begun.
abbrev pub awaits_decoder : World → Video → ℕ → Bool × Video
awaits_decoder w v target =
    let startup : Bool × Video = native_startup_ready w v in
    if v.ready_state == have_future_data && buffer_fills w v target
    then (not startup.0, startup.1)
    else (false, v)

abbrev pub warm_target : World → Ledger → Video → Ledger × Video
warm_target w l v =
    let target : ℕ = video_target_time w v in
    let decoder : Bool × Video = awaits_decoder w v target in
    let stalled : Bool × Ledger × Video = recover_stalled_native_prefetch w l decoder.1 target in
    let held : Bool × Video = hold_native_target w decoder.1 target in
    if decoder.0
    then (l, play_if_paused (set_native_priming_rate (decoder.1)))
    else (if stalled.0
        then (stalled.1, stalled.2)
        else (if held.0 then (l, held.1) else refetch w l decoder.1 target))

-- `warmNativeBuffer`
unfoldable pub warm_native_buffer : World → Ledger → Video → Ledger × Video
warm_native_buffer w l v =
    let ready : Bool × Video = native_recovery_target_ready w (native_startup_ready w v).1 in
    if not w.playing || not w.was_buffering || not (is_native v.transport) || v.seeking
    then (l, v)
    else (if ready.0
        then (l, hold_ready_native_target w ready.1)
        else warm_target w l (start_warming (ready.1)))
