-- ===== src/Timeline/Jump.antt =====
-- `jumpToBoundary`: the clock jumps to the next or the previous start of a recording.
pub mod Nearest
use cctv_timeline_viewer_cor.Base.{
  ltb, leb, ◌==◌, if◌then◌else◌, ltb→lt, lt→ltb, leb→le, ==_iff, le→leb, ltb-false, leb-false,
  ne_test, tests, Bool-cases, Option-cases, ◌>>=◌, length, get_elem?, filter, any, find,
  length-append, get_elem?-lt, get_elem?-some, ◌∈◌, get_elem?-∈, ∈-get_elem?, Extended, lte,
  lt_extended, max_extended, lte_trans, lte-total, lte_refl, lte-max_left, lte-max_right,
  minus_infinity, finite, plus_infinity, ℕ, zero, suc, ◌+◌, ◌-◌, ◌*◌, ◌/◌, ◌%◌, ◌^◌, ◌≤◌, ◌<◌, min,
  max, ◌≡◌, refl, sym, ap, ◌∙◌, ◌≢◌, ◌↔◌, ◌⊎◌, inl, inr, Bool, true, false, not, ◌&&◌, ◌||◌, Option,
  none, some, List, [], ◌∷◌, ◌++◌, map, arith,
}
use cctv_timeline_viewer_cor.Recording.{Segment, CameraTrack, Timeline}
use cctv_timeline_viewer_cor.Media.Median.{insert, sort}
use cctv_timeline_viewer_cor.Timeline.View.{View}
use cctv_timeline_viewer_cor.Timeline.Seek.{seek_to}

abbrev pub segment_starts : List Segment → List ℕ
segment_starts [] = []
segment_starts (s ∷ segments) = s.start_ts ∷ segment_starts segments

-- `timeline.cameras.forEach(cam => cam.segments.forEach(s => starts.push(s.start_ts)))`
abbrev pub camera_starts : List CameraTrack → List ℕ
camera_starts [] = []
camera_starts (camera ∷ cameras) = segment_starts camera.segments ++ camera_starts cameras

-- `[...new Set(starts)]`: the first of equal starts stays.
unfoldable pub distinct : List ℕ → List ℕ
distinct [] = []
distinct (t ∷ ts) = t ∷ filter (λ u. not (u == t)) (distinct ts)

-- The last element that passes, which the loop from the end finds.
unfoldable pub find_last : (ℕ → Bool) → List ℕ → Option ℕ
find_last p [] = none
find_last p (t ∷ ts) = elim (find_last p ts) [
  | some u ↦ some u
  | none ↦ if p t then some t else none
]

pub data Direction : Type 0 where
  back : Direction
  forward : Direction

abbrev pub margin : ℕ
margin = 500

-- The new time, or none where the loops end without a `break`.
abbrev pub boundary : Direction → ℕ → List ℕ → Option ℕ
boundary back time starts = find_last (λ t. ltb (t + margin) time) starts
boundary forward time starts = find (λ t. ltb (time + margin) t) starts

unfoldable pub next_start : Direction → ℕ → Timeline → Option ℕ
next_start direction time timeline =
    boundary direction time (sort (distinct (camera_starts timeline.cameras)))

-- What the jump does to the view; stopping and moving the players is the player's part.
abbrev pub jump_in : Direction → View → Option ℕ → Option Timeline → View
jump_in direction view none timeline = view
jump_in direction view (some time) none = view
jump_in direction view (some time) (some timeline) = elim (next_start direction time timeline) [
  | none ↦ seek_to time view
  | some t ↦ seek_to t view
]

unfoldable pub jump_to_boundary : Direction → View → View
jump_to_boundary direction view = jump_in direction view view.current_time view.timeline
