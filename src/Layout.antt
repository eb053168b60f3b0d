-- ===== src/Layout.antt =====
-- ctv_web/js/app.js: the grid of the hotspot layout, one large cell and the others beside or below it.
-- Lengths are whole pixels, and the aspect ratio is a quotient of two numbers.
pub mod Room
use cctv_timeline_viewer_cor.Base.{
  ltb, leb, ◌==◌, if◌then◌else◌, ltb→lt, lt→ltb, leb→le, ==_iff, le→leb, ltb-false, leb-false,
  ne_test, tests, Bool-cases, Option-cases, ◌>>=◌, length, get_elem?, filter, any, find,
  length-append, get_elem?-lt, get_elem?-some, ◌∈◌, get_elem?-∈, ∈-get_elem?, Extended, lte,
  lt_extended, max_extended, lte_trans, lte-total, lte_refl, lte-max_left, lte-max_right,
  minus_infinity, finite, plus_infinity, ℕ, zero, suc, ◌+◌, ◌-◌, ◌*◌, ◌/◌, ◌%◌, ◌^◌, ◌≤◌, ◌<◌, min,
  max, ◌≡◌, refl, sym, ap, ◌∙◌, ◌≢◌, ◌↔◌, ◌⊎◌, inl, inr, Bool, true, false, not, ◌&&◌, ◌||◌, Option,
  none, some, List, [], ◌∷◌, ◌++◌, map, arith,
}

pub record Ratio : Type 0 where
  pub over : ℕ
  pub under : ℕ

-- `Math.ceil(count / cols)`
abbrev pub ceil_div : ℕ → ℕ → ℕ
ceil_div count cols = (count + (cols - 1)) / cols

abbrev pub gap : ℕ
gap = 3

pub record Side : Type 0 where
  pub cols : ℕ
  pub rows : ℕ
  pub row_height : ℕ
  pub score : ℕ

-- `Math.floor(Math.min(byHeight, byWidth))`, where the subtraction that stops at 0 gives a height
-- that is refused just as a negative one is.
unfoldable pub row_height : (width height : ℕ) → Ratio → (cols rows : ℕ) → ℕ
row_height width height ratio cols rows =
    let by_height : ℕ = (height - (rows - 1) * gap) / rows in
    let by_width : ℕ =
      (width * ratio.under - (ratio.over * (rows - 1) * gap + cols * gap * ratio.under))
      / (ratio.over * (rows + cols)) in
    min by_height by_width

-- `!best || score > best.score`
abbrev pub improves : ℕ → Option Side → Bool
improves score none = true
improves score (some best) = ltb best.score score

unfoldable pub best_side :
    (width height : ℕ) → Ratio → (count : ℕ) → List ℕ → Option Side → Option Side
best_side width height ratio count [] best = best
best_side width height ratio count (cols ∷ columns) best =
    let rows : ℕ = ceil_div count cols in
    let h : ℕ = row_height width height ratio cols rows in
    let score : ℕ = h * h * (count + rows * rows) in
    let side : Side = record { cols = cols; rows = rows; row_height = h; score = score } in
    best_side width height ratio count columns
      (if not (ltb h 30) && improves score best then some side else best)

-- `Array.from({ length: count }, (_, index) => index + 1)`, from a first element on
unfoldable pub numbers_from : ℕ → ℕ → List ℕ
numbers_from first zero = []
numbers_from first (suc count) = first ∷ numbers_from (suc first) count

abbrev pub candidate_columns : ℕ → List ℕ
candidate_columns count = if leb count 3 then 1 ∷ [] else numbers_from 1 count

-- The columns and rows of the side cells of a wide page.
abbrev pub side_of : ℕ → Option Side → ℕ × ℕ
side_of count none = (1, count)
side_of count (some best) = (best.cols, best.rows)

-- `S.hotspotSideCols` and `S.hotspotSideRows`
unfoldable pub side_grid : (mobile : Bool) (width height : ℕ) → Ratio → (count : ℕ) → ℕ × ℕ
side_grid mobile width height ratio zero = (0, 1)
side_grid true width height ratio (suc n) = (min 2 (suc n), ceil_div (suc n) (min 2 (suc n)))
side_grid false width height ratio (suc n) =
    side_of (suc n) (best_side width height ratio (suc n) (candidate_columns (suc n)) none)

-- The column and row of a side cell, in `applyHotspotCellPositions`.
unfoldable pub cell_position : (mobile : Bool) (cols index : ℕ) → ℕ × ℕ
cell_position true cols index = (1 + index % cols, 2 + index / cols)
cell_position false cols index = (2 + index % cols, 1 + index / cols)
