-- ===== src/Examples/Queries.antt =====
-- Runs and theorems of the searches over recordings: three clips, the first of which outlasts the
-- second, on two cameras.
use cctv_timeline_viewer_cor.Base.{
  ltb, if◌then◌else◌, get_elem?, filter, finite, ℕ, ◌≡◌, refl, true, Option, none, some, List, [],
  ◌∷◌, arith,
}
use cctv_timeline_viewer_cor.Recording.{Segment, CameraTrack}
use cctv_timeline_viewer_cor.Media.Search.{
  upper_bound_loop, upper_bound_start, recording_at_loop, recording_at, is_open_at,
}
use cctv_timeline_viewer_cor.Media.Search.Bounds.{IsSorted, Splits, upper_bound_start-Splits}
use cctv_timeline_viewer_cor.Media.Search.Recorded.{RecordedAt, recording_at-RecordedAt}
use cctv_timeline_viewer_cor.Media.Index.{
  grow_size, fill_leaves, raise_maxima, interval_index, write, starts_before, active_end,
  visible_end,
}
use cctv_timeline_viewer_cor.Media.Index.Built.{IsIndex, interval_index-IsIndex}
use cctv_timeline_viewer_cor.Media.Query.{
  collect_overlaps, overlaps, overlapping_segments, find_rightmost_active, scan_latest, is_active,
  starts_between, in_order_answer, latest_recording_at, last_started_after,
  last_segment_starting_between,
}
use cctv_timeline_viewer_cor.Media.Query.Scan.{Latest}
use cctv_timeline_viewer_cor.Media.Query.Overlaps.{overlapping_segments-filter}
use cctv_timeline_viewer_cor.Media.Query.Latest.{latest_recording_at-Latest}
use cctv_timeline_viewer_cor.Media.Query.Between.{last_segment_starting_between-Latest}
use cctv_timeline_viewer_cor.EventPlayback.{search_segments, search_cameras, playable_time}
use cctv_timeline_viewer_cor.EventPlayback.Playable.{clips, IsFirst, playable_time-IsFirst}
use cctv_timeline_viewer_cor.Hotspot.{
  includes, promoted_order, visible_order, best_camera, start_candidate, current_candidate,
}
use cctv_timeline_viewer_cor.Hotspot.Candidates.{
  Answers, current_candidate-Answers, start_candidate-Answers,
}
use cctv_timeline_viewer_cor.Hotspot.Promoted.{count, IsDistinct, promoted_order-count}

program : Unit {0}
unfolding upper_bound_start upper_bound_loop recording_at recording_at_loop is_open_at
    interval_index grow_size fill_leaves raise_maxima write starts_before active_end visible_end
    collect_overlaps overlapping_segments find_rightmost_active scan_latest in_order_answer
    latest_recording_at last_started_after last_segment_starting_between search_segments
    search_cameras playable_time promoted_order visible_order best_camera start_candidate
    current_candidate
program = tt

abbrev clip : ℕ → ℕ → ℕ → Segment
clip id start end = record {
  id = id;
  start_ts = start;
  end_ts = some end;
  duration = none;
  events = [];
}

abbrev clips_of_day : List Segment
clips_of_day = clip 1 1000 90000 ∷ clip 2 20000 30000 ∷ clip 3 70000 80000 ∷ []

abbrev cameras : List CameraTrack
cameras =
    (record { camera_id = 7; segments = clips_of_day })
    ∷ (record { camera_id = 8; segments = clip 4 20000 25000 ∷ [] })
    ∷ []

upper_bound_run : upper_bound_start clips_of_day 20000 ≡ some 2
unfolding program
upper_bound_run = refl

-- The last that started by 50 s has ended; the first is still open.
recording_at_run :
    (recording_at clips_of_day 50000 ≡ some none)
    × (latest_recording_at clips_of_day 50000 ≡ some (some (clip 1 1000 90000)))
unfolding program
recording_at_run = (refl, refl)

overlaps_run :
    overlapping_segments clips_of_day 40000 75000
    ≡ some (clip 1 1000 90000 ∷ clip 3 70000 80000 ∷ [])
unfolding program
overlaps_run = refl

hotspot_run :
    (current_candidate cameras (8 ∷ 7 ∷ []) (some 22000) ≡ some (some 8))
    × (start_candidate cameras (7 ∷ 8 ∷ []) (some 1000) (some 60000) ≡ some (some 7))
unfolding program
hotspot_run = (refl, refl)

playable_run :
    playable_time (some (record { from = 0; to = 100000; cameras = cameras })) (8 ∷ []) (finite 500)
    ≡ some (finite 20000)
unfolding program
playable_run = refl

clips_of_day-IsSorted : IsSorted clips_of_day
unfolding program
clips_of_day-IsSorted = (interval_index-IsIndex clips_of_day).sorted refl

upper_bound_start_example :
    (n : ℕ) × (upper_bound_start clips_of_day 20000 ≡ some n) × Splits clips_of_day 20000 n
upper_bound_start_example = upper_bound_start-Splits clips_of_day 20000 clips_of_day-IsSorted

recording_at_example :
    (r : Option Segment) × (recording_at clips_of_day 20000 ≡ some r)
    × RecordedAt clips_of_day 20000 r
recording_at_example = recording_at-RecordedAt clips_of_day 20000 clips_of_day-IsSorted

interval_index_example : IsIndex clips_of_day (interval_index clips_of_day)
interval_index_example = interval_index-IsIndex clips_of_day

overlapping_segments_example :
    overlapping_segments clips_of_day 40000 75000
    ≡ some (if ltb 75000 40000 then [] else filter (overlaps 40000 75000) clips_of_day)
overlapping_segments_example = overlapping_segments-filter clips_of_day 40000 75000

latest_recording_at_example :
    (r : Option Segment) × (latest_recording_at clips_of_day 50000 ≡ some r)
    × Latest (is_active 50000) clips_of_day r
latest_recording_at_example = latest_recording_at-Latest clips_of_day 50000

last_segment_starting_between_example :
    (r : Option Segment) × (last_segment_starting_between clips_of_day 1000 60000 ≡ some r)
    × Latest (starts_between 1000 60000) clips_of_day r
last_segment_starting_between_example = last_segment_starting_between-Latest clips_of_day 1000 60000

playable_time_example : IsFirst (finite 500) (clips (8 ∷ []) cameras) (
    playable_time
      (some (record { from = 0; to = 100000; cameras = cameras }))
      (8 ∷ [])
      (finite 500))
playable_time_example =
    playable_time-IsFirst (record { from = 0; to = 100000; cameras = cameras }) (8 ∷ [])
      (finite 500)

current_candidate_example :
    (r : Option ℕ) × (current_candidate cameras (8 ∷ 7 ∷ []) (some 22000) ≡ some r)
    × Answers (is_active 22000) (8 ∷ 7 ∷ []) cameras r
current_candidate_example = current_candidate-Answers cameras (8 ∷ 7 ∷ []) 22000

start_candidate_example :
    (r : Option ℕ) × (start_candidate cameras (7 ∷ 8 ∷ []) (some 1000) (some 60000) ≡ some r)
    × Answers (starts_between 1000 60000) (7 ∷ 8 ∷ []) cameras r
start_candidate_example = start_candidate-Answers cameras (7 ∷ 8 ∷ []) 1000 60000

order_run : promoted_order (3 ∷ 9 ∷ 1 ∷ []) 1 (1 ∷ 2 ∷ 3 ∷ []) ≡ 1 ∷ 3 ∷ 2 ∷ []
unfolding program
order_run = refl

order-IsDistinct : IsDistinct (3 ∷ 9 ∷ 1 ∷ [])
order-IsDistinct id = ground arith

ids-IsDistinct : IsDistinct (1 ∷ 2 ∷ 3 ∷ [])
ids-IsDistinct id = ground arith

promoted_order_example :
    ((id : ℕ)
      → count (promoted_order (3 ∷ 9 ∷ 1 ∷ []) 1 (1 ∷ 2 ∷ 3 ∷ [])) id ≡ count (1 ∷ 2 ∷ 3 ∷ []) id)
    × (includes (1 ∷ 2 ∷ 3 ∷ []) 1 ≡ true
        → get_elem? (promoted_order (3 ∷ 9 ∷ 1 ∷ []) 1 (1 ∷ 2 ∷ 3 ∷ [])) 0 ≡ some 1)
promoted_order_example =
    promoted_order-count (3 ∷ 9 ∷ 1 ∷ []) (1 ∷ 2 ∷ 3 ∷ []) order-IsDistinct ids-IsDistinct 1
