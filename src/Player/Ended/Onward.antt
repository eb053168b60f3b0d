-- ===== src/Player/Ended/Onward.antt =====
-- The step past the end of a recording: the clock goes beyond it, and never back.
use mathlib.Core.Path.{subst}
use cctv_timeline_viewer_cor.Base.{option_some, ℕ, ◌+◌, ◌≤◌, ◌<◌, max, ◌≡◌, sym, some, arith}
use cctv_timeline_viewer_cor.Recording.{Segment, Timeline}
use cctv_timeline_viewer_cor.Player.Video.{Video}
use cctv_timeline_viewer_cor.Player.World.{time_number}
use cctv_timeline_viewer_cor.Player.Barrier.{Player}
use cctv_timeline_viewer_cor.Player.Page.{set_clock}
use cctv_timeline_viewer_cor.Player.Page.Forward.{reconcile_playback_position-forward}
use cctv_timeline_viewer_cor.Player.Ended.{
  boundary_of, replace_video, ended_recording, with_end, step_past, end_in, on_video_ended,
}

-- A player whose clock is not before that of another, and beyond a boundary.
abbrev pub Onward : Player → ℕ → Player → Type 0
Onward p boundary q =
    (time_number p.world.current_time ≤ time_number q.world.current_time)
    × (boundary < time_number q.world.current_time)

step_past-Onward :
    (p : Player) (timeline : Timeline) (v : Video) (s : Segment) (boundary : ℕ)
    → Onward p boundary (step_past p timeline v s boundary)
step_past-Onward p timeline v s boundary =
    let stepped : Player =
      set_clock (max (time_number p.world.current_time) (boundary + 1)) (record p {
        world = record p.world { timeline = some (with_end v.camera s boundary timeline) };
        videos = replace_video (record v { transitioning = some s.id }) p.videos;
      }) in
    let forward = reconcile_playback_position-forward stepped in
    (omega (arith, forward), omega (arith, forward))

-- When a recording ends whose boundary is known, from the index or from where the media stands, the
-- clock goes beyond the boundary, and not back.
pub on_video_ended-Onward :
    (p : Player) (v : Video) (timeline : Timeline) (expected : ℕ) (s : Segment) (boundary : ℕ)
    → p.world.timeline ≡ some timeline
    → ended_recording timeline v expected ≡ some s
    → boundary_of s v ≡ some boundary
    → Onward p boundary (on_video_ended p v expected)
unfolding on_video_ended
on_video_ended-Onward p v timeline expected s boundary a b c =
    subst (λ o. Onward p boundary (end_in p v expected o)) (sym a)
      (option_some (Onward p boundary) (ended_recording timeline v expected) s p _ b (
        option_some (Onward p boundary) (boundary_of s v) boundary p _ c
          (step_past-Onward p timeline v s boundary)))
