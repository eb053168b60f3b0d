-- ===== src/Examples/Views.antt =====
-- Runs and theorems of the timeline view and of the audio.
use mathlib.Core.Path.{subst}
use mathlib.Core.Option.{some-injective}
use cctv_timeline_viewer_cor.Base.{
  ltb, any, ℕ, ◌+◌, ◌≤◌, ◌≡◌, refl, Bool, true, false, not, none, some, [], ◌∷◌, arith,
}
use cctv_timeline_viewer_cor.Recording.{Timeline}
use cctv_timeline_viewer_cor.Geometry.{Range}
use cctv_timeline_viewer_cor.Timeline.Whole.{pos}
use cctv_timeline_viewer_cor.Timeline.View.{View, pan_zoom_by_pixels}
use cctv_timeline_viewer_cor.Timeline.Pan.{IsInside, IsValid, Step, Step-IsValid}
use cctv_timeline_viewer_cor.Timeline.Seek.{seek_to}
use cctv_timeline_viewer_cor.Timeline.Seek.Bounds.{Shows, seek_to-IsValid}
use cctv_timeline_viewer_cor.Timeline.Jump.{camera_starts, margin, next_start, Direction}
use cctv_timeline_viewer_cor.Timeline.Jump.Nearest.{IsLeast, IsGreatest, next_start-IsNearest}
use cctv_timeline_viewer_cor.Audio.{
  Playback, Video, Audio, may_sound, still_selected, only_first, sync,
}
use cctv_timeline_viewer_cor.Audio.Single.{IsSingle, sync-IsSingle}

abbrev day : Timeline
day = record {
  from = 0;
  to = 100000;
  cameras =
      (record {
        camera_id = 7;
        segments =
            (record { id = 1; start_ts = 20000; end_ts = some 30000; duration = none; events = [] })
            ∷ [];
      })
      ∷ [];
}

abbrev view : View
view = record {
  timeline = some day;
  zoom_range = some (10000, 30000);
  current_time = some 15000;
  row_width = 1000;
}

view-IsValid : IsValid view
view-IsValid timeline e =
    subst
      (λ (t : Timeline).
        (t.from ≤ t.to)
        × ((range : Range) → view.zoom_range ≡ some range → IsInside (t.from, t.to) range)
        × ((time : ℕ) → view.current_time ≡ some time → (t.from ≤ time) × (time ≤ t.to)))
      (some-injective _ _ e)
      (
        omega arith,
        λ range f.
            subst (λ x. IsInside (0, 100000) x) (some-injective _ _ f)
              (omega arith, omega arith, omega arith),
        λ time f.
            subst (λ t. (0 ≤ t) × (t ≤ 100000)) (some-injective _ _ f) (omega arith, omega arith),
      )

Step_example : IsValid (pan_zoom_by_pixels (pos 300) view).1
Step_example =
    Step-IsValid view ((pan_zoom_by_pixels (pos 300) view).1) (Step.panned (pos 300) view)
      view-IsValid

seek_to_example :
    IsValid (seek_to 90000 view)
    × Shows 90000 (seek_to 90000 view)
    × ((seek_to 90000 view).current_time ≡ some 90000)
seek_to_example = seek_to-IsValid 90000 view day refl (omega arith, omega arith) view-IsValid

next_start_example :
    IsLeast
      (λ t. ltb (15000 + margin) t)
      (camera_starts day.cameras)
      (next_start Direction.forward 15000 day)
    × IsGreatest
        (λ t. ltb (t + margin) 15000)
        (camera_starts day.cameras)
        (next_start Direction.back 15000 day)
next_start_example = next_start-IsNearest 15000 day

abbrev video : ℕ → Bool → Video
video camera muted = record {
  camera = camera;
  muted = muted;
  hidden = false;
  seeking = false;
  failed_media = false;
  warming = false;
  sync_held = false;
  card_buffering = false;
  card_failed = false;
  paused = false;
  ended = false;
  intentional_pauses = 0;
}

abbrev playing : Playback
playing = record { speed = 1000; hidden = false; day = some 1; playing = true; buffering = false }

abbrev audio : Audio
audio = record { selected = some 8; day = some 1; videos = video 7 false ∷ video 8 true ∷ [] }

abbrev silent : Audio
silent = record { selected = some 8; day = some 1; videos = video 7 true ∷ video 8 true ∷ [] }

sync_run :
    sync playing audio
    ≡ record { selected = some 8; day = some 1; videos = video 7 true ∷ video 8 false ∷ [] }
unfolding sync still_selected may_sound only_first
sync_run = refl

sync_example :
    IsSingle (may_sound playing (sync playing audio).selected) (sync playing audio).videos
    × (any (λ v. not v.muted) (sync playing audio).videos
        ≡ any (may_sound playing (sync playing audio).selected) audio.videos)
sync_example = sync-IsSingle playing audio
