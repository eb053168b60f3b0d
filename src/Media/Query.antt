-- ===== src/Media/Query.antt =====
-- ctv_web/js/media.js: the queries that walk the maximum trees. A walk takes fuel for its depth; the
-- width of the tree is more than enough. `none` is a fault: a read outside the array, or no fuel.
pub mod Picks
pub mod Overlaps
pub mod Scan
pub mod Latest
pub mod Between
use cctv_timeline_viewer_cor.Base.{
  ℕ, zero, suc, ◌+◌, ◌-◌, ◌*◌, ◌/◌, Bool, true, false, ◌&&◌, ◌||◌, not, List, [], ◌∷◌, ◌++◌, Option,
  none, some, ◌>>=◌, if◌then◌else◌, ltb, leb, ◌==◌, length, get_elem?, filter, Extended, finite,
  lte, lt_extended,
}
use cctv_timeline_viewer_cor.Recording.{Segment}
use cctv_timeline_viewer_cor.Media.Search.{upper_bound_start, is_open_at}
use cctv_timeline_viewer_cor.Media.Index.{Index, visible_end, interval_index}

-- `if (left < segments.length) result.push(segments[left])`
abbrev pub push_at : List Segment → ℕ → List Segment
push_at segments i = elim (get_elem? segments i) [ none ↦ [] | some s ↦ s ∷ [] ]

-- The recordings that a call of `collectOverlaps` pushes, in order.
unfoldable pub collect_overlaps :
    ℕ → Index → List Segment → ℕ → ℕ → ℕ → ℕ → ℕ → Option (List Segment)
collect_overlaps zero index segments node left right limit from = none
collect_overlaps (suc fuel) index segments node left right limit from =
    let middle = (left + right) / 2 in
    let lower = collect_overlaps fuel index segments (node * 2) left middle limit from in
    let upper = collect_overlaps fuel index segments (node * 2 + 1) (middle + 1) right limit from in
    let children = do
      first ← lower
      second ← if ltb middle limit then upper else some []
      some (first ++ second)
    in if ltb limit left || lt_extended (index.visible_max node) (finite from)
      then some []
      else (if left == right then some (push_at segments left) else children)

-- The test of the scan for recordings out of order.
abbrev pub overlaps : ℕ → ℕ → Segment → Bool
overlaps from to segment = leb from (visible_end segment) && leb segment.start_ts to

unfoldable pub overlapping_segments : List Segment → ℕ → ℕ → Option (List Segment)
overlapping_segments [] from to = some []
overlapping_segments (s ∷ rest) from to =
    let segments = s ∷ rest in
    let index = interval_index segments in
    let walk = do
      started ← upper_bound_start segments to
      if started == 0 || lt_extended (index.visible_max 1) (finite from)
          then some []
          else collect_overlaps (index.size + 1) index segments 1 0 (index.size - 1) (started - 1)
              from
    in if ltb to from
      then some []
      else (if not index.sorted then some (filter (overlaps from to) segments) else walk)

-- `some none` is the -1 of the source.
unfoldable pub find_rightmost_active : ℕ → Index → ℕ → ℕ → ℕ → ℕ → ℕ → Option (Option ℕ)
find_rightmost_active zero index node left right limit timestamp = none
find_rightmost_active (suc fuel) index node left right limit timestamp =
    let middle = (left + right) / 2 in
    let upper =
      find_rightmost_active fuel index (node * 2 + 1) (middle + 1) right limit timestamp in
    let lower = find_rightmost_active fuel index (node * 2) left middle limit timestamp in
    let children = do
      found ← if ltb middle limit then upper else some none
      elim found [ none ↦ lower | some i ↦ some (some i) ]
    in if ltb limit left || lte (index.active_max node) (finite timestamp)
      then some none
      else (if left == right then some (some left) else children)

-- `!latest || segment.start_ts > latest.start_ts`
abbrev pub starts_after : Segment → Option Segment → Bool
starts_after segment none = true
starts_after segment (some latest) = ltb latest.start_ts segment.start_ts

-- The scan for recordings out of order: the first of those with the latest start that pass the test.
unfoldable pub scan_latest : (Segment → Bool) → Option Segment → List Segment → Option Segment
scan_latest test latest [] = latest
scan_latest test latest (segment ∷ rest) =
    scan_latest test (if test segment && starts_after segment latest then some segment else latest)
      rest

abbrev pub is_active : ℕ → Segment → Bool
is_active timestamp segment = leb segment.start_ts timestamp && is_open_at timestamp segment

-- The walk, where `started` recordings start by the timestamp: `limit` is `started - 1`.
unfoldable pub in_order_answer : List Segment → ℕ → ℕ → Option (Option Segment)
in_order_answer segments timestamp zero = some none
in_order_answer segments timestamp (suc limit) =
    let index = interval_index segments in
    do
      found ← find_rightmost_active (index.size + 1) index 1 0 (index.size - 1) limit timestamp
      elim found [ none ↦ some none | some i ↦ some (get_elem? segments i) ]

unfoldable pub latest_recording_at : List Segment → ℕ → Option (Option Segment)
latest_recording_at [] timestamp = some none
latest_recording_at (s ∷ rest) timestamp =
    let segments = s ∷ rest in
    let walk = upper_bound_start segments timestamp >>= in_order_answer segments timestamp in
    if not (interval_index segments).sorted
    then some (scan_latest (is_active timestamp) none segments)
    else walk

abbrev pub starts_between : ℕ → ℕ → Segment → Bool
starts_between from_exclusive to_inclusive segment =
    ltb from_exclusive segment.start_ts && leb segment.start_ts to_inclusive

-- `segments[upperBoundStart(...) - 1]` and the test of its start
unfoldable pub last_started_after : List Segment → ℕ → ℕ → Option Segment
last_started_after segments from_exclusive zero = none
last_started_after segments from_exclusive (suc last) = elim (get_elem? segments last) [
  | none ↦ none
  | some t ↦ if ltb from_exclusive t.start_ts then some t else none
]

unfoldable pub last_segment_starting_between : List Segment → ℕ → ℕ → Option (Option Segment)
last_segment_starting_between [] from_exclusive to_inclusive = some none
last_segment_starting_between (s ∷ rest) from_exclusive to_inclusive =
    let segments = s ∷ rest in
    let scanned = scan_latest (starts_between from_exclusive to_inclusive) none segments in
    let searched = do
      started ← upper_bound_start segments to_inclusive
      some (last_started_after segments from_exclusive started)
    in if ltb to_inclusive from_exclusive
      then some none
      else (if not (interval_index segments).sorted then some scanned else searched)
