-- ===== src/Geometry/Laws.antt =====
-- Popovers stay in the viewport, and recentring keeps the zoom and shows the time.
use cctv_timeline_viewer_cor.Base.{ℕ, ◌+◌, ◌-◌, ◌*◌, ◌≤◌, min, ◌≡◌, refl, arith}
use cctv_timeline_viewer_cor.Geometry.{Box, Place, viewport_popover_position, recenter_range}

-- The new range is as wide as the old one, cut to the limits, lies inside the limits, and holds the
-- time if the limits do.
pub recenter_range-inside :
    (time from to lo hi anchor : ℕ)
    → lo ≤ hi
    → anchor ≤ 1000
    → (lo ≤ (recenter_range time (from, to) (lo, hi) anchor).0)
      × ((recenter_range time (from, to) (lo, hi) anchor).1 ≤ hi)
      × ((recenter_range time (from, to) (lo, hi) anchor).1
          ≡ (recenter_range time (from, to) (lo, hi) anchor).0 + min (hi - lo) (to - from))
      × (lo ≤ time
          → time ≤ hi
          → ((recenter_range time (from, to) (lo, hi) anchor).0 ≤ time)
            × (time ≤ (recenter_range time (from, to) (lo, hi) anchor).1))
unfolding recenter_range
recenter_range-inside time from to lo hi anchor h a =
    let width : ℕ = min (hi - lo) (to - from) in
    let part : width * anchor ≤ width * 1000 = grind arith in
    (omega arith, omega arith, refl, λ p q. (omega arith, omega (arith, part)))

-- A popover that fits between the margins is placed between them, up to the rounding of half a pixel.
pub viewport_popover_position-inside :
    (point : Place) (size viewport : Box) (margin gap : ℕ)
    → size.width + margin + margin ≤ viewport.width
    → size.height + margin + margin ≤ viewport.height
    → (margin ≤ (viewport_popover_position point size viewport margin gap).left * 1000 + 500)
      × ((viewport_popover_position point size viewport margin gap).left * 1000
            + size.width
            + margin
          ≤ viewport.width + 500)
      × (margin ≤ (viewport_popover_position point size viewport margin gap).top * 1000 + 500)
      × ((viewport_popover_position point size viewport margin gap).top * 1000
            + size.height
            + margin
          ≤ viewport.height + 500)
unfolding viewport_popover_position
viewport_popover_position-inside point size viewport margin gap w h = ground arith
