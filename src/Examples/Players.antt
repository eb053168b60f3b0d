-- ===== src/Examples/Players.antt =====
-- Runs and theorems of the player's decisions, the median, the progress and the geometry.
use mathlib.Core.List.{Perm, Permᴰ}
use cctv_timeline_viewer_cor.Base.{
  length, ℕ, ◌+◌, ◌-◌, ◌≤◌, ◌<◌, min, ◌≡◌, refl, ◌↔◌, true, false, Option, none, some, List, [],
  ◌∷◌, arith,
}
use cctv_timeline_viewer_cor.Media.Playback.{
  Ending, playback_completed, timeline_playback_speed, playback_plan,
}
use cctv_timeline_viewer_cor.Media.Playback.Speeds.{playback_plan_speed}
use cctv_timeline_viewer_cor.Media.Playback.Completion.{AtEnd, playback_completed_iff}
use cctv_timeline_viewer_cor.Media.Median.Ranks.{IsMedian, median_time-IsMedian}
use cctv_timeline_viewer_cor.Media.Median.{finite_times, median_time}
use cctv_timeline_viewer_cor.Media.Progress.{Report, Progress, aggregate_partition_progress}
use cctv_timeline_viewer_cor.Media.Progress.Bounds.{IsBounded, aggregate_IsBounded}
use cctv_timeline_viewer_cor.Geometry.{Box, Place, recenter_range}
use cctv_timeline_viewer_cor.Geometry.Laws.{recenter_range-inside}

playback_plan_speed_example :
    (timeline_playback_speed
        (some ((playback_plan "balanced" (some 4000)).playback_rate))
        (some ((playback_plan "balanced" (some 4000)).stream_speed))
      ≡ 4000)
    × (1000 ≤ (playback_plan "balanced" (some 4000)).stream_speed)
    × ((playback_plan "balanced" (some 4000)).transcoded ≡ true
        → (playback_plan "balanced" (some 4000)).playback_rate ≤ 1000)
playback_plan_speed_example = playback_plan_speed "balanced" 4000 (omega arith)

abbrev ending : Ending
ending = record {
  ended = true;
  current_time = 9960;
  expected_duration = some 10200;
  actual_duration = some 10000;
  metadata_ready = true;
  has_played = true;
  buffering = true;
  warming = false;
}

playback_completed_example : (playback_completed ending ≡ true) ↔ (
    (ending.ended ≡ true)
    × (ending.metadata_ready ≡ true)
    × (ending.has_played ≡ true)
    × AtEnd ending)
playback_completed_example = playback_completed_iff ending

abbrev times : List (Option ℕ)
times = some 30 ∷ none ∷ some 10 ∷ some 21 ∷ some 40 ∷ []

median_time_example :
    (0 < length (finite_times times)
      → (m : ℕ) × (median_time times ≡ some m) × IsMedian (finite_times times) m)
    × (finite_times times ≡ [] → median_time times ≡ none)
median_time_example = median_time-IsMedian times

abbrev first_order : List (Option ℕ)
first_order = some 30 ∷ none ∷ some 10 ∷ []

abbrev second_order : List (Option ℕ)
second_order = none ∷ some 30 ∷ some 10 ∷ []

swapped : Perm first_order second_order
swapped = ∣ Permᴰ.swap refl refl ∣₁

abbrev report : Report
report = record { camera_id = 7; partition = "2024-05-01"; total = 12; done = 5 }

abbrev progress : Progress
progress =
    ((7, "2024-05-01"), record { camera_id = 7; done = 3; total = 10; finished = false }) ∷ []

progress-IsBounded : IsBounded progress
progress-IsBounded = ground arith

aggregate_IsBounded_example :
    IsBounded (aggregate_partition_progress progress report false).0
    × ((aggregate_partition_progress progress report false).1.done
        ≤ (aggregate_partition_progress progress report false).1.total)
    × ((aggregate_partition_progress progress report false).1.camera_done
        ≤ (aggregate_partition_progress progress report false).1.camera_total)
    × ((aggregate_partition_progress progress report false).1.camera_total
        ≤ (aggregate_partition_progress progress report false).1.total)
aggregate_IsBounded_example =
    aggregate_IsBounded progress report false progress-IsBounded (λ e. absurd (omega arith))

recenter_range_example :
    (0 ≤ (recenter_range 900 (100, 300) (0, 1000) 300).0)
    × ((recenter_range 900 (100, 300) (0, 1000) 300).1 ≤ 1000)
    × ((recenter_range 900 (100, 300) (0, 1000) 300).1
        ≡ (recenter_range 900 (100, 300) (0, 1000) 300).0 + min (1000 - 0) (300 - 100))
    × (0 ≤ 900
        → 900 ≤ 1000
        → ((recenter_range 900 (100, 300) (0, 1000) 300).0 ≤ 900)
          × (900 ≤ (recenter_range 900 (100, 300) (0, 1000) 300).1))
recenter_range_example = recenter_range-inside 900 100 300 0 1000 300 (omega arith) (omega arith)

abbrev point : Place
point = record { x = 700000; y = 20000 }

abbrev popover : Box
popover = record { width = 200000; height = 100000 }

abbrev viewport : Box
viewport = record { width = 800000; height = 600000 }
