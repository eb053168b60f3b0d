-- ===== src/Timeline/Seek.antt =====
-- `seekTo`, and the time that a click on a row or on a recording means.
pub mod Bounds
use cctv_timeline_viewer_cor.Base.{
  ltb, leb, ◌==◌, if◌then◌else◌, ltb→lt, lt→ltb, leb→le, ==_iff, le→leb, ltb-false, leb-false,
  ne_test, tests, Bool-cases, Option-cases, ◌>>=◌, length, get_elem?, filter, any, find,
  length-append, get_elem?-lt, get_elem?-some, ◌∈◌, get_elem?-∈, ∈-get_elem?, Extended, lte,
  lt_extended, max_extended, lte_trans, lte-total, lte_refl, lte-max_left, lte-max_right,
  minus_infinity, finite, plus_infinity, ℕ, zero, suc, ◌+◌, ◌-◌, ◌*◌, ◌/◌, ◌%◌, ◌^◌, ◌≤◌, ◌<◌, min,
  max, ◌≡◌, refl, sym, ap, ◌∙◌, ◌≢◌, ◌↔◌, ◌⊎◌, inl, inr, Bool, true, false, not, ◌&&◌, ◌||◌, Option,
  none, some, List, [], ◌∷◌, ◌++◌, map, arith,
}
use cctv_timeline_viewer_cor.Geometry.{Range}
use cctv_timeline_viewer_cor.Timeline.View.{View, ensure_timeline_time_visible}

-- What a seek does to the view: the clock is set, and the range moves to show it. Stopping and moving
-- the players is the player's part.
unfoldable pub seek_to : ℕ → View → View
seek_to ts view = (ensure_timeline_time_visible ts 300 (record view { current_time = some ts })).1

-- The place of an element on the screen: its left edge and its width.
pub record Extent : Type 0 where
  pub left : ℕ
  pub width : ℕ

-- The element of a recording, with the times in its `dataset`; the end may be missing or 0.
pub record SegmentTarget : Type 0 where
  pub extent : Extent
  pub start : ℕ
  pub end : Option ℕ

-- `Number(segment.dataset.end) || start`
abbrev pub target_end : SegmentTarget → ℕ
target_end segment = elim (segment.end) [
  | none ↦ segment.start
  | some end ↦ if end == 0 then segment.start else end
]

-- `start + (end - start) * Math.max(0, Math.min(1, (clientX - left) / Math.max(1, width)))`
unfoldable pub segment_time : SegmentTarget → ℕ → ℕ
segment_time segment client_x =
    let width : ℕ = max 1000 segment.extent.width in
    let offset : ℕ = min width (client_x - segment.extent.left) in
    if ltb (target_end segment) segment.start
    then segment.start - (segment.start - target_end segment) * offset / width
    else segment.start + (target_end segment - segment.start) * offset / width

-- A click left of the area, right of it, or on a row without an area seeks nothing.
unfoldable pub row_time : Extent → ℕ → Range → ℕ → Option ℕ
row_time row label_width range client_x =
    let area : ℕ = row.width - label_width in
    let x : ℕ = client_x - (row.left + label_width) in
    if ltb 0 area && leb (row.left + label_width) client_x && leb x area
    then some (range.0 + (range.1 - range.0) * x / area)
    else none

-- The time that `seekFromTimelineTarget` seeks, if it seeks one.
unfoldable pub target_time :
    Option Extent → Option SegmentTarget → (label_width client_x : ℕ) → Option Range → Option ℕ
target_time none segment label_width client_x range = none
target_time (some row) segment label_width client_x none = none
target_time (some row) (some segment) label_width client_x (some range) =
    some (segment_time segment client_x)
target_time (some row) none label_width client_x (some range) =
    row_time row label_width range client_x
