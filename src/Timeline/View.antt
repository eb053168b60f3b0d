-- ===== src/Timeline/View.antt =====
-- The part of the shared state `S` that timeline.js reads and writes: the timeline, the range of time
-- on view, the clock, and the width of the rows. Drawing is left out.
use cctv_timeline_viewer_cor.Base.{
  ltb, leb, ◌==◌, if◌then◌else◌, ℕ, suc, ◌+◌, ◌-◌, ◌*◌, ◌/◌, min, max, Bool, true, false, ◌&&◌,
  ◌||◌, Option, none, some,
}
use cctv_timeline_viewer_cor.Recording.{Timeline}
use cctv_timeline_viewer_cor.Geometry.{Range, recenter_range}
use cctv_timeline_viewer_cor.Timeline.Whole.{ℤ, pos, negsuc, neg, scale}

pub record View : Type 0 where
  pub timeline : Option Timeline
  pub zoom_range : Option Range
  pub current_time : Option ℕ
  pub row_width : ℕ

-- Each operation with the range and the timeline that it reads from the state, where `none` is null.
-- `ensureTimelineTimeVisible` returns whether the range changed, and the state after.
abbrev pub show_in : ℕ → ℕ → View → Option Range → Option Timeline → Bool × View
show_in ts anchor view none timeline = (false, view)
show_in ts anchor view (some range) none = (false, view)
show_in ts anchor view (some range) (some timeline) =
    if leb range.0 ts && leb ts range.1 then (false, view) else (
      true,
      record view {
        zoom_range = some (recenter_range ts range (timeline.from, timeline.to) anchor);
      },
    )

unfoldable pub ensure_timeline_time_visible : ℕ → ℕ → View → Bool × View
ensure_timeline_time_visible ts anchor view = show_in ts anchor view view.zoom_range view.timeline

-- `nf = from + dTime, nt = to + dTime`, and the first correction: both ends move up where the lower
-- one is below the limit.
abbrev pub moved : ℕ → Range → ℤ → Range
moved lowest (z0, z1) (pos d) =
    if ltb (z0 + d) lowest then (lowest, z1 + d + (lowest - (z0 + d))) else (z0 + d, z1 + d)
moved lowest (z0, z1) (negsuc d) =
    if ltb z0 (lowest + suc d) then (lowest, z1 + lowest - z0) else (z0 - suc d, z1 - suc d)

-- The other two corrections: both ends move down where the upper one is above the limit, and the
-- lower one stops at the limit.
abbrev pub settled : Range → Range → Range
settled (lowest, highest) (nf, nt) =
    if ltb highest nt then (max lowest (nf - (nt - highest)), highest) else (max lowest nf, nt)

-- The code that `panZoomByPixels`, the `pointermove` handler and the wheel handler have in common.
unfoldable pub pan_range : Range → Range → ℤ → Range
pan_range limits range time = settled limits (moved limits.0 range time)

abbrev pub same_range : Range → Range → Bool
same_range a b = (a.0 == b.0) && (a.1 == b.1)

abbrev pub pan_in : ℤ → View → Option Range → Option Timeline → Bool × View
pan_in delta_x view none timeline = (false, view)
pan_in delta_x view (some range) none = (false, view)
pan_in delta_x view (some range) (some timeline) =
    let next : Range =
      pan_range (timeline.from, timeline.to) range
        (neg (scale delta_x (range.1 - range.0) view.row_width)) in
    if view.row_width == 0 || same_range next range
    then (false, view)
    else (true, record view { zoom_range = some next })

unfoldable pub pan_zoom_by_pixels : ℤ → View → Bool × View
pan_zoom_by_pixels delta_x view = pan_in delta_x view view.zoom_range view.timeline

-- The wheel handler on the timeline tab, from the value of `delta` on: 0.8 of the distance. Rows of no
-- width make the distance a division by zero, and the range it stores is not of numbers: `none`.
abbrev pub wheel_in : ℤ → View → Option Range → Option Timeline → Option View
wheel_in delta view none timeline = some view
wheel_in delta view (some range) none = some view
wheel_in delta view (some range) (some timeline) =
    if view.row_width == 0
    then none
    else some (record view {
      zoom_range = some (
          pan_range (timeline.from, timeline.to) range
            (scale delta ((range.1 - range.0) * 800) (view.row_width * 1000)));
    })

unfoldable pub wheel : ℤ → View → Option View
wheel delta view = wheel_in delta view view.zoom_range view.timeline

-- `MIN_ZOOM_RANGE / 2`
abbrev pub min_half : ℕ
min_half = 1500

-- The time that a zoom keeps in the middle.
abbrev pub zoom_center : Option ℕ → Range → ℕ
zoom_center (some time) range = time
zoom_center none range = (range.0 + range.1) / 2

abbrev pub zoom_half : ℕ → Range → Timeline → ℕ
zoom_half factor range timeline =
    min (max ((range.1 - range.0) * 1000 / (2 * factor)) min_half)
      ((timeline.to - timeline.from) / 2)

abbrev pub zoomed_range : Timeline → (center half : ℕ) → Range
zoomed_range timeline center half =
    (max timeline.from (center - half), min timeline.to (center + half))

-- The factor is in thousandths. `none` is the exception that reading a missing timeline throws.
abbrev pub zoom_in : ℕ → View → Option Range → Option Timeline → Option View
zoom_in factor view none timeline = some view
zoom_in factor view (some range) none = none
zoom_in factor view (some range) (some timeline) = some (record view {
  zoom_range = some (
      zoomed_range timeline (zoom_center view.current_time range)
        (zoom_half factor range timeline));
})

unfoldable pub zoom : ℕ → View → Option View
zoom factor view = zoom_in factor view view.zoom_range view.timeline

abbrev pub fit_in : View → Option Timeline → View
fit_in view none = view
fit_in view (some timeline) = record view { zoom_range = some (timeline.from, timeline.to) }

unfoldable pub zoom_fit : View → View
zoom_fit view = fit_in view view.timeline
