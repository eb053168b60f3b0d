-- ===== src/Examples/Records.antt =====
-- Runs and theorems of the session recorder.

use cctv_timeline_viewer_cor.Base.{length, ℕ, ◌≡◌, refl, true, false, none, List, [], ◌∷◌, arith}
use cctv_timeline_viewer_cor.Trace.{
  bounded_push, empty_totals, Moment, accumulate_all, Entry, add, add_all, drain,
}
use cctv_timeline_viewer_cor.Trace.Partition.{Shares, accumulate_all-Shares}
use cctv_timeline_viewer_cor.Trace.Counts.{count_of, Distinct, counts_of, events_of, drain-Distinct}

-- A second of playing, and then six that were not observed.
abbrev first_moment : Moment
first_moment = record {
  wall = 1000;
  is_hidden = false;
  is_playing = true;
  is_buffering = false;
  time = 5000;
  speed = 1000;
}

abbrev next_moments : List Moment
next_moments =
    record first_moment { wall = 2000; time = 6000 }
    ∷ record first_moment { wall = 8000; time = 12000 }
    ∷ []

accumulate_all-Shares_example :
    Shares 7000 (accumulate_all empty_totals none (first_moment ∷ next_moments))
accumulate_all-Shares_example =
    accumulate_all-Shares first_moment next_moments (omega arith, (omega arith, tt))

-- Two events of a kind in the same second, and one in the next.
abbrev entries : List Entry
entries =
    record { wall = 1100; labels = "waiting" ∷ []; duration_ms = none }
    ∷ record { wall = 1900; labels = "waiting" ∷ []; duration_ms = none }
    ∷ record { wall = 2000; labels = "waiting" ∷ []; duration_ms = none }
    ∷ []

drain-Distinct_example :
    (count_of (drain (add_all entries [])).0 ≡ 3)
    × Distinct (drain (add_all entries [])).0
    × ((drain (add_all entries [])).1 ≡ [])
    × ((e : Entry) → counts_of e (drain (add_all entries [])).0 ≡ events_of e entries)
drain-Distinct_example = drain-Distinct entries

two_buckets : length (add_all entries []) ≡ 2
unfolding add_all add
two_buckets = refl

last_two : bounded_push {A = ℕ} (1 ∷ 2 ∷ []) 3 2 ≡ 2 ∷ 3 ∷ []
unfolding bounded_push
last_two = refl
