-- ===== src/Player/Source/Restarts.antt =====
-- A stream is restarted three times at most.
use mathlib.Core.Path.{subst}
use cctv_timeline_viewer_cor.Base.{
  ltb, if◌then◌else◌, ltb→lt, ltb-false, if_all, if_cases, option_all, ℕ, ◌+◌, ◌≤◌, ◌<◌, ◌≡◌, refl,
  sym, ◌∙◌, Bool, true, false, Option, none, some, ◌∷◌, arith, option_some,
}
use cctv_timeline_viewer_cor.Recording.{Segment}
use cctv_timeline_viewer_cor.Media.Playback.{PlaybackPlan, playback_plan}
use cctv_timeline_viewer_cor.Player.Video.{Video, native, mp4, hls}
use cctv_timeline_viewer_cor.Player.World.{World, Ledger, anchor, find_recording_at}
use cctv_timeline_viewer_cor.Player.Ready.{same_number}
use cctv_timeline_viewer_cor.Player.Source.{
  pause_video, load, release, cancelled_source, cancel_hls_source, failed_video, fail_video,
  describe, prepare, sourced, source_in, update_player_cell, source_key, restart_progressive_video,
}
use cctv_timeline_viewer_cor.Player.Source.{same_recording}
use cctv_timeline_viewer_cor.Player.Source.Failing.{Failed, is_listed, fail_video-listed}

-- The restarts of a stream are counted up to three.
abbrev Fewer : ℕ → Ledger × Video → Type 0
Fewer n r = r.1.recovery_attempts ≤ n

cancelled_source-attempts :
    (v : Video) → (cancelled_source v).recovery_attempts ≡ v.recovery_attempts
cancelled_source-attempts v =
    option_all (λ (u : Video). u.recovery_attempts ≡ v.recovery_attempts) v.job refl (λ j. refl)

source_in-Fewer :
    (w : World) (l : Ledger) (v : Video) (rec : Option Segment)
    → Fewer v.recovery_attempts (source_in w l v rec)
unfolding fail_video
source_in-Fewer w l v none = omega arith
source_in-Fewer w l v (some rec) =
    let plan : PlaybackPlan = playback_plan w.profile (some w.speed) in
    let described : Video = describe w plan rec v in
    let prepared : Video = prepare w plan described in
    let few : described.recovery_attempts ≤ v.recovery_attempts =
      if_all (λ n. n ≤ v.recovery_attempts) (same_number v.recording (some rec.id)) (omega arith)
        (omega arith) in
    if_all (Fewer v.recovery_attempts) (is_listed l rec.id)
      {x = (
        anchor w (record (release v.job l) { failed_recordings = rec.id ∷ l.failed_recordings }),
        failed_video described,
      )}
      {y = sourced w plan l prepared} (omega (arith, few, cancelled_source-attempts described))
      (if_all (Fewer v.recovery_attempts) plan.transcoded
        {x = (
          record l { next_session = l.next_session + 1 },
          record prepared {
            job = some l.next_session;
            transport = if w.native_hls then hls else mp4;
          },
        )}
        {y = (l, load (record prepared { transport = native; has_source = true }))} few few)

update_player_cell-Fewer :
    (w : World) (l : Ledger) (v : Video) (rec : Option Segment)
    → Fewer v.recovery_attempts (update_player_cell w l v rec)
unfolding update_player_cell cancel_hls_source
update_player_cell-Fewer w l v rec = omega (
  arith,
  cancelled_source-attempts v,
  source_in-Fewer w (release v.job l) (cancelled_source v) rec,
)

fail_video-attempts :
    (w : World) (l : Ledger) (v : Video) (r : ℕ)
    → v.recording ≡ some r
    → (fail_video w l v).1.recovery_attempts ≡ v.recovery_attempts
unfolding fail_video
fail_video-attempts w l v r e =
    option_some (λ (res : Ledger × Video). res.1.recovery_attempts ≡ v.recovery_attempts)
      v.recording r _ _ e (cancelled_source-attempts v)

-- A stream of the recording that was shown keeps its count.
cancelled_source-recording : (v : Video) → (cancelled_source v).recording ≡ v.recording
cancelled_source-recording v =
    option_all (λ (u : Video). u.recording ≡ v.recording) v.job refl (λ j. refl)

source_in-attempts :
    (w : World) (l : Ledger) (v : Video) (rec : Segment)
    → same_recording v (some rec) ≡ true
    → (source_in w l v (some rec)).1.recovery_attempts ≡ v.recovery_attempts
unfolding fail_video
source_in-attempts w l v rec h =
    let plan : PlaybackPlan = playback_plan w.profile (some w.speed) in
    let described : Video = describe w plan rec v in
    let prepared : Video = prepare w plan described in
    let Keeps : Ledger × Video → Type 0 = λ r. r.1.recovery_attempts ≡ v.recovery_attempts in
    let keeps : described.recovery_attempts ≡ v.recovery_attempts =
      if_cases (λ n. n ≡ v.recovery_attempts) (same_number v.recording (some rec.id))
        {x = v.recovery_attempts} {y = 0} (λ e. refl) (λ f. absurd (ground (arith, h, f))) in
    if_all Keeps (is_listed l rec.id)
      {x = (
        anchor w (record (release v.job l) { failed_recordings = rec.id ∷ l.failed_recordings }),
        failed_video described,
      )}
      {y = sourced w plan l prepared} (cancelled_source-attempts described ∙ keeps)
      (if_all Keeps plan.transcoded
        {x = (
          record l { next_session = l.next_session + 1 },
          record prepared {
            job = some l.next_session;
            transport = if w.native_hls then hls else mp4;
          },
        )}
        {y = (l, load (record prepared { transport = native; has_source = true }))} keeps keeps)

update_player_cell-attempts :
    (w : World) (l : Ledger) (v : Video) (rec : Option Segment)
    → same_recording v rec ≡ true
    → (update_player_cell w l v rec).1.recovery_attempts ≡ v.recovery_attempts
unfolding update_player_cell cancel_hls_source
update_player_cell-attempts w l v none h = absurd (ground (arith, h))
update_player_cell-attempts w l v (some rec) h =
    source_in-attempts w (release v.job l) (cancelled_source v) rec
      (subst (λ x. same_number x (some rec.id) ≡ true) (sym (cancelled_source-recording v)) h)
    ∙ cancelled_source-attempts v

-- What a restart promises of a video with a recording.
abbrev pub Bounded : World → Ledger → Video → Bool × Ledger × Video → Type 0
Bounded w l v r =
    (r.2.recovery_attempts ≤ 3)
    × (r.0 ≡ true
        → (v.recovery_attempts < 3)
          × (r.2.recovery_attempts ≤ v.recovery_attempts + 1)
          × (same_recording v (find_recording_at w l v.camera w.current_time) ≡ true
              → r.2.recovery_attempts ≡ v.recovery_attempts + 1))
    × (r.0 ≡ false → (3 ≤ v.recovery_attempts) × Failed r.2)

-- A stream is restarted only while it has fewer than three attempts, and a restart with the recording
-- that it had raises them by exactly one, so that there is no fourth; with three the video fails
-- instead. The attempts never exceed three, nor rise by more than one.
pub restart_progressive_video_bound :
    (w : World) (l : Ledger) (v : Video) (r : ℕ)
    → v.recording ≡ some r
    → v.recovery_attempts ≤ 3
    → Bounded w l v (restart_progressive_video w l v)
unfolding restart_progressive_video
restart_progressive_video_bound w l v r e few =
    let rec : Option Segment = find_recording_at w l v.camera w.current_time in
    let counted : Video = pause_video (record v { recovery_attempts = v.recovery_attempts + 1 }) in
    let again : Ledger × Video =
      update_player_cell w (record l { restarts = l.restarts + 1 }) counted rec in
    let failed : Ledger × Video = fail_video w l v in
    if_cases (Bounded w l v) (ltb 3 (v.recovery_attempts + 1)) {x = (false, failed.0, failed.1)}
      {y = (true, again.0, record (again.1) { cached = some (source_key w rec) })}
      (λ full. (
        omega (arith, few, fail_video-attempts w l v r e),
        λ t. absurd (ground (arith, t)),
        λ f. (omega (arith, ltb→lt _ _ full), (fail_video-listed w l v r e).1),
      ))
      (λ free. (
        omega (
          arith,
          ltb-false _ _ free,
          update_player_cell-Fewer w (record l { restarts = l.restarts + 1 }) counted rec,
        ),
        λ t. (
          omega (arith, ltb-false _ _ free),
          update_player_cell-Fewer w (record l { restarts = l.restarts + 1 }) counted rec,
          λ h. update_player_cell-attempts w (record l { restarts = l.restarts + 1 }) counted rec h,
        ),
        λ f. absurd (ground (arith, f)),
      ))
