-- ===== src/Player/Clock/Stands.antt =====
-- The checks of a tick and the deadline of the recovery leave the clock as it was.
use cctv_timeline_viewer_cor.Base.{
  if_all, if◌then◌else◌, ℕ, refl, Bool, not, ◌&&◌, ◌||◌, Option, none, some, List, [], ◌∷◌,
}
use cctv_timeline_viewer_cor.Player.Video.{is_native, Progress, Video}
use cctv_timeline_viewer_cor.Player.World.{video_target_time}
use cctv_timeline_viewer_cor.Player.Ready.{
  video_reached_end, video_has_playback_buffer, track_native_delivery, native_delivery_active,
}
use cctv_timeline_viewer_cor.Player.Source.{reload_native_recovery}
use cctv_timeline_viewer_cor.Player.Barrier.{Player, finish_recovery}
use cctv_timeline_viewer_cor.Player.Barrier.Stands.{
  SamePage, same_page, SamePage-trans, entered-SamePage,
}
use cctv_timeline_viewer_cor.Player.Page.{video_of}
use cctv_timeline_viewer_cor.Player.Clock.{
  put_video, failed_one, frozen, judge_frozen, check_video_progress, check_each, expire, overdue,
}

failed_one-SamePage : (p : Player) (v : Video) → SamePage p (failed_one p v)
failed_one-SamePage p v = same_page p _ refl refl refl

abbrev again_of : Player → Video → Bool
again_of p u = (reload_native_recovery p.world p.ledger u (video_target_time p.world u)).0

frozen-SamePage : (p : Player) (v : Video) → SamePage p (frozen p v)
frozen-SamePage p v =
    let u : Video = (video_reached_end p.world v).1 in
    if_all (SamePage p) (video_reached_end p.world v).0 (same_page p _ refl refl refl) (
      if_all (SamePage p) (native_delivery_active p.world u)
        (entered-SamePage p _ _ (same_page p _ refl refl refl))
        (if_all (SamePage p) (is_native u.transport && again_of p u)
          (entered-SamePage p _ _ (same_page p _ refl refl refl)) (failed_one-SamePage p u)))

judge_frozen-SamePage :
    (p : Player) (v : Video) (g : Option Progress) → SamePage p (judge_frozen p v g)
judge_frozen-SamePage p v none = same_page p _ refl refl refl
judge_frozen-SamePage p v (some g) =
    if_all (SamePage p) _ (same_page p _ refl refl refl)
      (if_all (SamePage p) _ (frozen-SamePage p v) (same_page p _ refl refl refl))

check_video_progress-SamePage : (p : Player) (v : Video) → SamePage p (check_video_progress p v)
unfolding check_video_progress
check_video_progress-SamePage p v =
    let u : Video = (video_has_playback_buffer p.world v).1 in
    let unwatched : Bool =
      not p.world.playing
      || p.world.was_buffering
      || v.sync_held
      || v.seeking
      || not v.has_played in
    if_all (SamePage p) unwatched (same_page p _ refl refl refl) (
      if_all (SamePage p) (not (video_has_playback_buffer p.world v).0)
        (same_page p (put_video (record u { playback_progress = none }) p) refl refl refl)
        (judge_frozen-SamePage p u u.playback_progress))

check_one-SamePage :
    (p : Player) (found : Option Video)
    → SamePage p (elim found [
      | none ↦ p
      | some v ↦ check_video_progress p (track_native_delivery p.world v)
    ])
check_one-SamePage p none = same_page p _ refl refl refl
check_one-SamePage p (some v) = check_video_progress-SamePage p _

pub check_each-SamePage : (cameras : List ℕ) (p : Player) → SamePage p (check_each cameras p)
unfolding check_each
check_each-SamePage [] p = same_page p _ refl refl refl
check_each-SamePage (camera ∷ cameras) p =
    SamePage-trans p _ _ (check_one-SamePage p (video_of camera p.videos))
      (check_each-SamePage cameras _)

expire-SamePage : (p : Player) → SamePage p (expire p)
unfolding expire finish_recovery
expire-SamePage p =
    if_all (SamePage p) _
      (if_all (SamePage p) _ (entered-SamePage p none _ (same_page p _ refl refl refl))
        (same_page p _ refl refl refl))
      (same_page p _ refl refl refl)

pub due-SamePage : (p : Player) → SamePage p (if overdue p.world then expire p else p)
due-SamePage p =
    if_all (SamePage p) (overdue p.world) (expire-SamePage p) (same_page p _ refl refl refl)
