-- ===== src/Geometry.antt =====
-- ctv_web/js/geometry.js: the place of a popover, and the range that shows a time.
-- Lengths and times are natural numbers of thousandths. Where a difference could be negative, the
-- source takes the maximum with a number that is not, so the subtraction that stops at 0 agrees.
pub mod Laws
use cctv_timeline_viewer_cor.Base.{
  ltb, leb, ◌==◌, if◌then◌else◌, ltb→lt, lt→ltb, leb→le, ==_iff, le→leb, ltb-false, leb-false,
  ne_test, tests, Bool-cases, Option-cases, ◌>>=◌, length, get_elem?, filter, any, find,
  length-append, get_elem?-lt, get_elem?-some, ◌∈◌, get_elem?-∈, ∈-get_elem?, Extended, lte,
  lt_extended, max_extended, lte_trans, lte_refl, lte-max_left, lte-max_right, minus_infinity,
  finite, plus_infinity, ℕ, zero, suc, ◌+◌, ◌-◌, ◌*◌, ◌/◌, ◌%◌, ◌^◌, ◌≤◌, ◌<◌, min, max, ◌≡◌, refl,
  sym, ap, ◌∙◌, ◌≢◌, ◌↔◌, ◌⊎◌, inl, inr, Bool, true, false, not, ◌&&◌, ◌||◌, Option, none, some,
  List, [], ◌∷◌, ◌++◌, map, arith,
}

pub record Position : Type 0 where
  pub left : ℕ
  pub top : ℕ

pub record Box : Type 0 where
  pub width : ℕ
  pub height : ℕ

pub record Place : Type 0 where
  pub x : ℕ
  pub y : ℕ

-- `Math.round`, from thousandths to whole pixels
abbrev pub round : ℕ → ℕ
round value = (value + 500) / 1000

-- `Math.max(margin, Math.min(value, limit - extent - margin))`
abbrev pub clamp_inside : ℕ → ℕ → ℕ → ℕ → ℕ
clamp_inside margin limit extent value = max margin (min value (limit - extent - margin))

unfoldable pub viewport_popover_position : Place → Box → Box → ℕ → ℕ → Position
viewport_popover_position point size viewport margin gap =
    let right : ℕ = point.x + gap in
    let left : ℕ =
      if ltb viewport.width (right + size.width + margin)
      then point.x - gap - size.width
      else right in
    record {
      left = round (clamp_inside margin viewport.width size.width left);
      top = round (clamp_inside margin viewport.height size.height (point.y - size.height / 2));
    }

abbrev pub Range : Type 0
Range = ℕ × ℕ

-- `anchor` is 0.3 by default: 300.
unfoldable pub recenter_range : ℕ → Range → Range → ℕ → Range
recenter_range time (from, to) (lo, hi) anchor =
    let total : ℕ = hi - lo in
    let width : ℕ = min total (to - from) in
    let start : ℕ = max lo (min (time - width * anchor / 1000) (hi - width)) in
    (start, start + width)
