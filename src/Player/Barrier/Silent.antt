-- ===== src/Player/Barrier/Silent.antt =====
-- The barrier silences every video, keeps the deadline of its recovery, and anchors the clock.

use cctv_timeline_viewer_cor.Base.{
  ltb, leb, ◌==◌, if◌then◌else◌, any, if_all, if_cases, option_all, ℕ, ◌+◌, ◌≡◌, refl, ap, ◌∙◌,
  Bool, true, false, not, ◌&&◌, ◌||◌, Option, none, some, List, [], ◌∷◌, map, arith,
}
use cctv_timeline_viewer_cor.Recording.{Segment}
use cctv_timeline_viewer_cor.Media.Playback.{PlaybackPlan, playback_plan}
use cctv_timeline_viewer_cor.Player.Video.{
  is_native, is_mp4, Key, EndProgress, is_hold, Preparation, Video, have_future_data, has_recording,
  is_active, native, mp4, hls,
}
use cctv_timeline_viewer_cor.Player.World.{
  World, Ledger, anchor, find_recording_at, video_playback_rate, video_buffer_duration,
  video_target_time,
}
use cctv_timeline_viewer_cor.Player.Ready.{
  buffered_ahead_at, same_progress, frozen_at_end, completed, new_progress, judge_progress,
  video_reached_end, native_startup_ready, near_end, minimum_ready, buffer_fills, buffered_for,
  video_has_playback_buffer,
}
use cctv_timeline_viewer_cor.Player.Source.{
  pause_video, play_video, load, release, cancelled_source, cancel_hls_source, failed_video,
  fail_video, describe, prepare, sourced, source_in, update_player_cell, set_native_priming_rate,
  reload_key, is_reloaded, same_recording, reload_native_recovery,
}
use cctv_timeline_viewer_cor.Player.Warm.{
  play_if_paused, pause_if_playing, hold_native_target, prepare_by, prepared_now,
}
use cctv_timeline_viewer_cor.Player.Barrier.{
  Player, each, if_active, starve, hold_back, mark_waiting, mute, begun, barrier_world,
  enter_buffering_barrier,
}
use cctv_timeline_viewer_cor.Player.Barrier.Every.{Every, Every-map}

-- The retries of decoders stay, and the video is silent.
abbrev Kept : Ledger → Ledger × Video → Type 0
Kept l r = (r.0.decode_retries ≡ l.decode_retries) × (r.1.muted ≡ true)

abbrev Mute : Bool × Video → Type 0
Mute r = r.1.muted ≡ true

release-retries : (job : Option ℕ) (l : Ledger) → (release job l).decode_retries ≡ l.decode_retries
release-retries none l = refl
release-retries (some j) l = refl

cancelled_source-muted : (v : Video) → (cancelled_source v).muted ≡ true
cancelled_source-muted v = option_all (λ (u : Video). u.muted ≡ true) v.job refl (λ j. refl)

source_in-Kept :
    (w : World) (l : Ledger) (v : Video) (rec : Option Segment) → Kept l (source_in w l v rec)
unfolding fail_video
source_in-Kept w l v none = (refl, refl)
source_in-Kept w l v (some rec) =
    let plan : PlaybackPlan = playback_plan w.profile (some w.speed) in
    let described : Video = describe w plan rec v in
    let prepared : Video = prepare w plan described in
    if_all (Kept l) (any (λ r. r == rec.id) l.failed_recordings)
      {x = (
        anchor w (record (release v.job l) { failed_recordings = rec.id ∷ l.failed_recordings }),
        failed_video described,
      )}
      {y = sourced w plan l prepared} (release-retries v.job l, cancelled_source-muted described)
      (if_all (Kept l) plan.transcoded
        {x = (
          record l { next_session = l.next_session + 1 },
          record prepared {
            job = some l.next_session;
            transport = if w.native_hls then hls else mp4;
          },
        )}
        {y = (l, load (record prepared { transport = native; has_source = true }))} (refl, refl)
        (refl, refl))

pub update_player_cell-Kept :
    (w : World) (l : Ledger) (v : Video) (rec : Option Segment)
    → ((update_player_cell w l v rec).0.decode_retries ≡ l.decode_retries)
      × ((update_player_cell w l v rec).1.muted ≡ true)
unfolding update_player_cell cancel_hls_source
update_player_cell-Kept w l v rec =
    let (retries, silent) = source_in-Kept w (release v.job l) (cancelled_source v) rec in
    (retries ∙ release-retries v.job l, silent)

reload-Kept :
    (w : World) (l : Ledger) (v : Video) (target : ℕ)
    → v.muted ≡ true
    → Kept l ((reload_native_recovery w l v target).1, (reload_native_recovery w l v target).2)
unfolding reload_native_recovery
reload-Kept w l v target m =
    let key : Key = reload_key w v target in
    let rec : Option Segment = find_recording_at w l v.camera w.current_time in
    let again : Ledger × Video =
      update_player_cell w l (record v { recovery_reload = some key }) rec in
    if_all (λ (r : Bool × Ledger × Video). Kept l (r.1, r.2))
      (is_reloaded v.recovery_reload key
        || not (any (λ c. c == v.camera) w.cameras)
        || not (same_recording v rec))
      {x = (false, l, v)}
      {y = (
        true,
        again.0,
        set_native_priming_rate
            (record (again.1) { warming = true; preload_auto = true; recovery_seek = none }),
      )}
      (refl, m) (update_player_cell-Kept w l (record v { recovery_reload = some key }) rec)

pause_if_playing-muted : (v : Video) → v.muted ≡ true → (pause_if_playing v).muted ≡ true
pause_if_playing-muted v m = if_all (λ (u : Video). u.muted ≡ true) (not v.paused) refl m

play_if_paused-muted : (v : Video) → v.muted ≡ true → (play_if_paused v).muted ≡ true
play_if_paused-muted v m = if_all (λ (u : Video). u.muted ≡ true) v.paused m m

prepare_by-muted : (p : Preparation) (v : Video) → v.muted ≡ true → (prepare_by p v).muted ≡ true
prepare_by-muted p v m =
    let kept : Video = record v { preparation = some p } in
    if_all (λ (u : Video). u.muted ≡ true) (is_hold p.mode) (pause_if_playing-muted kept m)
      (play_if_paused-muted (set_native_priming_rate kept) m)

hold_native_target-muted :
    (w : World) (v : Video) (target : ℕ)
    → v.muted ≡ true
    → (hold_native_target w v target).1.muted ≡ true
unfolding hold_native_target
hold_native_target-muted w v target m =
    if_all Mute (ltb v.ready_state have_future_data || leb (buffered_ahead_at v target) 50)
      {x = (false, v)} {y = (true, prepare_by (prepared_now w v target) v)} m
      (prepare_by-muted (prepared_now w v target) v m)

starve-Kept : (w : World) (l : Ledger) (v : Video) → v.muted ≡ true → Kept l (starve w l v)
starve-Kept w l v m =
    let target : ℕ = video_target_time w v in
    let warm : Video = record v { warming = true; preload_auto = true } in
    let preload_only : Bool =
      is_native v.transport && not v.preload_auto && not (buffer_fills w v target) in
    let again : Bool × Ledger × Video = reload_native_recovery w l warm target in
    let primed : Video = set_native_priming_rate warm in
    let held : Bool × Video = hold_native_target w primed target in
    let compressed : Video = record warm { rate = video_playback_rate w v } in
    if_all (Kept l) (preload_only && again.0) {x = (again.1, again.2)}
      (reload-Kept w l warm target m)
      (if_all (Kept l) (is_native v.transport)
        {x = (l, if held.0 then held.1 else play_video primed)}
        {y = (
          l,
          if not (is_mp4 v.transport) || not v.has_played
              then play_video compressed
              else compressed,
        )}
        (
          refl,
          if_all (λ (u : Video). u.muted ≡ true) held.0 (hold_native_target-muted w primed target m)
              m,
        )
        (
          refl,
          if_all (λ (u : Video). u.muted ≡ true) (not (is_mp4 v.transport) || not v.has_played) m m,
        ))

-- The test for the buffer changes nothing that is heard.
started-muted : (w : World) (v : Video) → v.muted ≡ true → (native_startup_ready w v).1.muted ≡ true
unfolding native_startup_ready
started-muted w v m = if_all Mute (leb 4 v.ready_state) {x = (true, v)} m m

judged-muted :
    (w : World) (v : Video) (o : Option EndProgress)
    → v.muted ≡ true
    → (judge_progress w v o).1.muted ≡ true
judged-muted w v none m = m
judged-muted w v (some g) m =
    if_all Mute (not (same_progress v g))
      {x = (false, record v { end_progress = some (new_progress w v) })}
      {y = (elim (v.media_duration) [ none ↦ false | some d ↦ frozen_at_end w v g.since d ], v)} m m

reached-muted : (w : World) (v : Video) → v.muted ≡ true → (video_reached_end w v).1.muted ≡ true
unfolding video_reached_end
reached-muted w v m = if_all Mute (completed w v) {x = (true, v)} m (
    if_all Mute (not w.playing || v.seeking || not v.metadata_ready || not v.has_played)
      {x = (false, record v { end_progress = none })} {y = judge_progress w v v.end_progress} m
      (judged-muted w v v.end_progress m))

buffered_for-muted : (w : World) (v : Video) → v.muted ≡ true → (buffered_for w v).1.muted ≡ true
buffered_for-muted w v m =
    let warms : Bool =
      v.warming && has_recording v && elim (w.current_time) [ none ↦ false | some t ↦ true ] in
    let position : ℕ = if warms then video_target_time w v else v.current_time in
    let startup : Bool × Video = native_startup_ready w v in
    let waits : Bool = v.seeking || ltb v.ready_state (minimum_ready v) in
    let filled : Bool × Video = (buffer_fills w v position, v) in
    let started : Bool × Video = (startup.0 && buffer_fills w v position, startup.1) in
    let plain : Bool × Video =
      (not v.seeking && leb have_future_data v.ready_state && buffer_fills w v position, v) in
    if_all Mute (near_end position (video_buffer_duration v))
      {x = (not v.seeking && leb (minimum_ready v) v.ready_state, v)} m
      (if_all Mute warms
        {x = if waits
          then (false, v)
          else (if not (is_native v.transport) then filled else started)}
        {y = plain}
        (if_all Mute waits {x = (false, v)} m (
          if_all Mute (not (is_native v.transport)) {x = filled} {y = started} m
            (started-muted w v m)))
        m)

buffer-muted :
    (w : World) (v : Video) → v.muted ≡ true → (video_has_playback_buffer w v).1.muted ≡ true
unfolding video_has_playback_buffer
buffer-muted w v m =
    let reached : Bool × Video = video_reached_end w v in
    if_all Mute (not v.metadata_ready) {x = (false, v)} m (
      if_all Mute reached.0 {x = (true, reached.1)} {y = buffered_for w reached.1}
        (reached-muted w v m) (buffered_for-muted w reached.1 (reached-muted w v m)))

hold_back-Kept :
    (already : Bool) (w : World) (l : Ledger) (v : Video)
    → v.muted ≡ true
    → Kept l (hold_back already w l v)
unfolding hold_back
hold_back-Kept already w l v m =
    let stopped : Video = pause_video (record v { sync_held = false }) in
    let fresh : Video = if already then stopped else record stopped { recovery_seek = none } in
    let ready : Bool × Video = video_has_playback_buffer w fresh in
    let silent : fresh.muted ≡ true =
      if_all (λ (u : Video). u.muted ≡ true) already {x = stopped} refl refl in
    let kept : ready.1.muted ≡ true = buffer-muted w fresh silent in
    if_all (Kept l)
      ((already && v.warming)
        || ((elim (v.job) [ none ↦ false | some j ↦ true ]) && not v.has_source))
      {x = (l, v)}
      {y = if not ready.0 then starve w l ready.1 else (l, record (ready.1) { warming = false })}
      (refl, m)
      (if_all (Kept l) (not ready.0) {x = starve w l ready.1}
        {y = (l, record (ready.1) { warming = false })} (starve-Kept w l ready.1 kept) (refl, kept))

each-Kept :
    (already : Bool) (w : World) (l : Ledger) (videos : List Video)
    → Every (λ v. v.muted ≡ true) videos
    → let r = each (if_active (hold_back already)) w l videos in
      (r.0.decode_retries ≡ l.decode_retries) × Every (λ v. v.muted ≡ true) r.1
unfolding each
each-Kept already w l [] m = (refl, tt)
each-Kept already w l (v ∷ videos) m =
    let one : Ledger × Video = if_active (hold_back already) w l v in
    let (retries, silent) =
      if_all (Kept l) (is_active v) {x = hold_back already w l v} {y = (l, v)}
        (hold_back-Kept already w l v m.0) (refl, m.0) in
    let (others, silents) = each-Kept already w one.0 videos m.1 in
    (others ∙ retries, (silent, silents))

silenced : (videos : List Video) → Every (λ v. v.muted ≡ true) (map {A = Video} mute videos)
silenced videos = Every-map (λ v. v.muted ≡ true) mute (λ v. refl) videos

-- What the barrier promises where playback runs.
abbrev pub Barred : Player → Player → Type 0
Barred p q =
    (q.world.was_buffering ≡ true)
    × (p.world.recovery_started ≡ none → q.world.recovery_started ≡ some p.world.now)
    × ((began : ℕ) → p.world.recovery_started ≡ some began → q.world.recovery_started ≡ some began)
    × (q.world.current_time ≡ p.world.current_time)
    × (q.ledger.clock_start_time ≡ p.world.current_time)
    × (q.ledger.clock_start_wall ≡ p.world.now)
    × (q.ledger.decode_retries ≡ p.ledger.decode_retries)
    × Every (λ v. v.muted ≡ true) q.videos

-- Where playback runs, the barrier is up after it is entered; a recovery that was under way keeps the
-- time of its start, from which its deadline counts, and without one a recovery starts now; the clock
-- keeps its time and is anchored there, the list of decoder retries stays, and every video is muted.
pub enter_buffering_barrier-Barred :
    (source : Option ℕ) (p : Player)
    → p.world.playing ≡ true
    → Barred p (enter_buffering_barrier source p)
unfolding enter_buffering_barrier
enter_buffering_barrier-Barred source p playing =
    let marked : List Video = map {A = Video} (mark_waiting source) p.videos in
    let kept =
      each-Kept p.world.was_buffering (barrier_world p.world) p.ledger (map {A = Video} mute marked)
        (silenced marked) in
    if_cases (Barred p) (not p.world.playing) {x = record p { videos = marked }}
      (λ e. absurd (ground (arith, playing, e)))
      (λ e. (
        refl,
        λ h. ap (λ o. begun o p.world.now) h,
        λ began h. ap (λ o. begun o p.world.now) h,
        refl,
        refl,
        refl,
        kept.0,
        kept.1,
      ))

-- Entered or not, it leaves the retries.
pub enter_buffering_barrier-retries :
    (source : Option ℕ) (p : Player)
    → (enter_buffering_barrier source p).ledger.decode_retries ≡ p.ledger.decode_retries
unfolding enter_buffering_barrier
enter_buffering_barrier-retries source p =
    let marked : List Video = map {A = Video} (mark_waiting source) p.videos in
    let kept =
      each-Kept p.world.was_buffering (barrier_world p.world) p.ledger (map {A = Video} mute marked)
        (silenced marked) in
    if_all (λ (q : Player). q.ledger.decode_retries ≡ p.ledger.decode_retries) (not p.world.playing)
      {x = record p { videos = marked }} refl kept.0
