-- ===== src/Player/Events/Retries.antt =====
-- A file that cannot be decoded is loaded again once, and then fails.
use mathlib.Core.Path.{subst}
use cctv_timeline_viewer_cor.Base.{
  ltb, ◌==◌, any, if_all, if_cases, option_all, option_some, ℕ, ◌+◌, ◌≡◌, refl, sym, ◌∙◌, Bool,
  true, false, not, ◌&&◌, Option, none, some, List, arith, if◌then◌else◌,
}
use cctv_timeline_viewer_cor.Recording.{Segment}
use cctv_timeline_viewer_cor.Player.Video.{is_native, Video}
use cctv_timeline_viewer_cor.Player.World.{find_recording_at}
use cctv_timeline_viewer_cor.Player.Source.{cancelled_source, fail_video, same_recording}
use cctv_timeline_viewer_cor.Player.Source.Failing.{Failed, is_listed, fail_video-listed}
use cctv_timeline_viewer_cor.Player.Barrier.Every.{Every, Every-map}
use cctv_timeline_viewer_cor.Player.World.{Ledger}
use cctv_timeline_viewer_cor.Player.Clock.{failed_one}
use cctv_timeline_viewer_cor.Player.Barrier.{Player, enter_buffering_barrier}
use cctv_timeline_viewer_cor.Player.Barrier.Silent.{
  update_player_cell-Kept, enter_buffering_barrier-retries,
}
use cctv_timeline_viewer_cor.Player.Page.{video_of}
use cctv_timeline_viewer_cor.Player.Events.{
  may_retry, decode_again, noted_retry, retry_native_decode_error, on_error,
}

-- Players with the same list of retries.
abbrev SameRetries : Player → Player → Type 0
SameRetries p q = q.ledger.decode_retries ≡ p.ledger.decode_retries

decode_again-SameRetries :
    (p : Player) (u : Video) (rec : Option Segment) → SameRetries p (decode_again p u rec)
decode_again-SameRetries p u rec = (update_player_cell-Kept p.world p.ledger u rec).0

-- A retry was refused, or its recording is on the list.
abbrev Noted : Player → Video → Bool × Player → Type 0
Noted p v r = r.0 ≡ true → r.1.ledger.decode_retries ≡ (noted_retry p v).ledger.decode_retries

retry-Noted : (p : Player) (v : Video) → Noted p v (retry_native_decode_error p v)
unfolding retry_native_decode_error
retry-Noted p v =
    let rec : Option Segment = find_recording_at p.world p.ledger v.camera p.world.current_time in
    let noted : Player = noted_retry p v in
    let barred : Player = enter_buffering_barrier none noted in
    let after : Player = elim (video_of v.camera barred.videos) [
      | none ↦ barred
      | some u ↦ decode_again barred u rec
    ] in
    if_all (Noted p v) (may_retry p v v.recording) {x = (true, after)} {y = (false, p)}
      (λ t.
        option_all (SameRetries barred) (video_of v.camera barred.videos) refl
          (λ u. decode_again-SameRetries barred u rec)
        ∙ enter_buffering_barrier-retries none noted)
      (λ t. absurd (ground (arith, t)))

noted-listed :
    (p : Player) (v : Video) (r : ℕ)
    → v.recording ≡ some r
    → any (λ s. s == r) (noted_retry p v).ledger.decode_retries ≡ true
noted-listed p v r e =
    option_some (λ (xs : List ℕ). any (λ s. s == r) xs ≡ true) v.recording r _ _ e (ground arith)

a_listed : (a b c l d e f : Bool) → l ≡ true → (a && b && c && not l && d && e && f) ≡ false
a_listed a b c l d e f h = ground (arith, h)

listed-refused :
    (p : Player) (u : Video) (r : ℕ)
    → any (λ s. s == r) p.ledger.decode_retries ≡ true
    → (o : Option ℕ) → o ≡ some r
    → may_retry p u o ≡ false
listed-refused p u r listed o e =
    subst (λ x. may_retry p u x ≡ false) (sym e)
      (a_listed p.world.playing (is_native u.transport)
        (elim (u.error) [ none ↦ false | some code ↦ code == 3 ])
        (any (λ s. s == r) p.ledger.decode_retries)
        (elim (p.world.recovery_started) [
          | none ↦ true
          | some began ↦ ltb p.world.now (began + 30000)
        ])
        (any (λ c. c == u.camera) p.world.cameras)
        (same_recording u (find_recording_at p.world p.ledger u.camera p.world.current_time))
        listed)

not_retried :
    (p : Player) (u : Video)
    → may_retry p u u.recording ≡ false
    → (retry_native_decode_error p u).0 ≡ false
unfolding retry_native_decode_error
not_retried p u h =
    let rec : Option Segment = find_recording_at p.world p.ledger u.camera p.world.current_time in
    let barred : Player = enter_buffering_barrier none (noted_retry p u) in
    let after : Player = elim (video_of u.camera barred.videos) [
      | none ↦ barred
      | some x ↦ decode_again barred x rec
    ] in
    if_cases (λ (r : Bool × Player). r.0 ≡ false) (may_retry p u u.recording) {x = (true, after)}
      {y = (false, p)} (λ t. absurd (ground (arith, t, h))) (λ f. refl)

cancelled_source-camera : (v : Video) → (cancelled_source v).camera ≡ v.camera
cancelled_source-camera v = option_all (λ (u : Video). u.camera ≡ v.camera) v.job refl (λ j. refl)

fail_video-camera : (p : Player) (v : Video) → (fail_video p.world p.ledger v).1.camera ≡ v.camera
unfolding fail_video
fail_video-camera p v =
    option_all (λ (r : Ledger × Video). r.1.camera ≡ v.camera) v.recording refl
      (λ r. cancelled_source-camera v)

-- The recording is refused from now on, and every video of the camera shows the failure.
abbrev pub Fails : Video → ℕ → Player → Type 0
Fails u r p =
    (is_listed p.ledger r ≡ true) × Every (λ x. (x.camera == u.camera) ≡ true → Failed x) p.videos

failed_one-Fails :
    (p : Player) (u : Video) (r : ℕ) → u.recording ≡ some r → Fails u r (failed_one p u)
failed_one-Fails p u r e =
    let gone : Ledger × Video = fail_video p.world p.ledger u in
    let (listed, failed) = fail_video-listed p.world p.ledger u r e in
    (
      listed,
      Every-map (λ x. (x.camera == u.camera) ≡ true → Failed x)
          (λ x. if x.camera == gone.1.camera then gone.1 else x)
          (λ x.
            if_cases (λ (y : Video). (y.camera == u.camera) ≡ true → Failed y)
              (x.camera == gone.1.camera) {x = gone.1} {y = x} (λ t h. failed)
              (λ f h. absurd (ground (arith, f, h, fail_video-camera p u))))
          p.videos,
    )

on_error-Fails :
    (p : Player) (u : Video) (r : ℕ)
    → u.recording ≡ some r
    → (retry_native_decode_error p u).0 ≡ false
    → Fails u r (on_error p u)
unfolding on_error
on_error-Fails p u r e h =
    if_cases (Fails u r) (retry_native_decode_error p u).0 {x = (retry_native_decode_error p u).1}
      {y = failed_one p u} (λ t. absurd (ground (arith, t, h))) (λ f. failed_one-Fails p u r e)

-- Once a recording was given to a fresh decoder, another error of a video that shows it is not retried,
-- whichever video it is: the recording is put on the list of those that are refused, and the videos of
-- its camera fail, without source and without session.
pub retry_native_decode_error_once :
    (p : Player) (v u : Video) (r : ℕ)
    → v.recording ≡ some r
    → u.recording ≡ some r
    → (retry_native_decode_error p v).0 ≡ true
    → ((retry_native_decode_error (retry_native_decode_error p v).1 u).0 ≡ false)
      × Fails u r (on_error (retry_native_decode_error p v).1 u)
retry_native_decode_error_once p v u r e d t =
    let after : Player = (retry_native_decode_error p v).1 in
    let refused = not_retried after u (
      listed-refused after u r
        (subst (λ xs. any (λ s. s == r) xs ≡ true) (sym (retry-Noted p v t)) (noted-listed p v r e))
        u.recording d) in
    (refused, on_error-Fails after u r d refused)
