-- ===== src/Layout/Room.antt =====
-- The side cells have room in their grid and a place of their own.
use mathlib.Core.Path.{ap₂}
use native.Mathlib.Nat.{mod-lt, div-add-mod, mod-add-div, div-lt_iff_lt-mul}
use cctv_timeline_viewer_cor.Base.{
  ltb, leb, if◌then◌else◌, Bool-cases, ℕ, zero, suc, ◌+◌, ◌-◌, ◌*◌, ◌/◌, ◌%◌, ◌≤◌, ◌<◌, min, ◌≡◌,
  sym, ap, ◌∙◌, inl, inr, Bool, true, false, not, ◌&&◌, Option, none, some, List, [], ◌∷◌, arith,
}
use cctv_timeline_viewer_cor.Layout.{
  Ratio, ceil_div, Side, row_height, improves, best_side, numbers_from, candidate_columns, side_of,
  side_grid, cell_position,
}

-- Columns, and rows that are enough for a number of cells.
abbrev Fits : ℕ → ℕ × ℕ → Type 0
Fits count (cols, rows) = (0 < cols) × (count ≤ cols * rows)

ceil_div-Fits : (count cols : ℕ) → 0 < cols → Fits count (cols, ceil_div count cols)
ceil_div-Fits count cols pos =
    (pos, omega (arith, div-add-mod (count + (cols - 1)) cols, mod-lt (count + (cols - 1)) pos))

abbrev BestFits : ℕ → Option Side → Type 0
BestFits count none = Unit
BestFits count (some side) = Fits count (side.cols, side.rows)

abbrev Positive : List ℕ → Type 0
Positive [] = Unit
Positive (x ∷ xs) = (0 < x) × Positive xs

numbers_from-Positive : (first count : ℕ) → 0 < first → Positive (numbers_from first count)
unfolding numbers_from
numbers_from-Positive first zero pos = tt
numbers_from-Positive first (suc count) pos =
    (pos, numbers_from-Positive (suc first) count (omega arith))

either-Fits :
    (b : Bool) (count : ℕ) (side : Side) (best : Option Side)
    → Fits count (side.cols, side.rows)
    → BestFits count best
    → BestFits count (if b then some side else best)
either-Fits true count side best fits kept = fits
either-Fits false count side best fits kept = kept

best_side-Fits :
    (width height : ℕ) (ratio : Ratio) (count : ℕ) (columns : List ℕ) (best : Option Side)
    → Positive columns
    → BestFits count best
    → BestFits count (best_side width height ratio count columns best)
unfolding best_side
best_side-Fits width height ratio count [] best pos fits = fits
best_side-Fits width height ratio count (cols ∷ columns) best (pos, more) fits =
    best_side-Fits width height ratio count columns _ more (
      either-Fits
        (not (ltb (row_height width height ratio cols (ceil_div count cols)) 30) && improves _ best)
        count _ best (ceil_div-Fits count cols pos) fits)

columns-Positive : (count : ℕ) → Positive (candidate_columns count)
columns-Positive count = elim (Bool-cases (leb count 3)) [
  | inl few ↦ rw few (omega arith, tt)
  | inr many ↦ rw many (numbers_from-Positive 1 count (omega arith))
]

side_of-Fits :
    (count : ℕ) (best : Option Side) → BestFits count best → Fits count (side_of count best)
side_of-Fits count none fits = (omega arith, omega arith)
side_of-Fits count (some side) fits = fits

side_grid-Fits :
    (mobile : Bool) (width height : ℕ) (ratio : Ratio) (n : ℕ)
    → Fits (suc n) (side_grid mobile width height ratio (suc n))
unfolding side_grid
side_grid-Fits true width height ratio n = ceil_div-Fits (suc n) (min 2 (suc n)) (omega arith)
side_grid-Fits false width height ratio n = side_of-Fits (suc n) _ (
    best_side-Fits width height ratio (suc n) (candidate_columns (suc n)) none
      (columns-Positive (suc n)) tt)

-- The places for side cells: below the main cell on a narrow page, right of it on a wide one.
abbrev pub IsBeside : Bool → ℕ × ℕ → ℕ × ℕ → Type 0
IsBeside true (cols, rows) (col, row) = (1 ≤ col) × (col ≤ cols) × (2 ≤ row) × (row ≤ 1 + rows)
IsBeside false (cols, rows) (col, row) = (2 ≤ col) × (col ≤ 1 + cols) × (1 ≤ row) × (row ≤ rows)

position-IsBeside :
    (mobile : Bool) (count i : ℕ) (grid : ℕ × ℕ)
    → i < count
    → Fits count grid
    → IsBeside mobile grid (cell_position mobile grid.0 i)
unfolding cell_position
position-IsBeside true count i (cols, rows) lt (pos, room) =
    let left = mod-lt i pos in
    let above = (div-lt_iff_lt-mul {x = i} {y = rows} pos).1 (grind arith) in
    (omega arith, omega (arith, left), omega arith, omega (arith, above))
position-IsBeside false count i (cols, rows) lt (pos, room) =
    let left = mod-lt i pos in
    let above = (div-lt_iff_lt-mul {x = i} {y = rows} pos).1 (grind arith) in
    (omega arith, omega (arith, left), omega arith, omega (arith, above))

same_parts : (cols i j : ℕ) → i % cols ≡ j % cols → i / cols ≡ j / cols → i ≡ j
same_parts cols i j e f =
    sym (mod-add-div i cols) ∙ ap₂ (λ a b. a + cols * b) e f ∙ mod-add-div j cols

position-apart :
    (mobile : Bool) (cols i j : ℕ)
    → cell_position mobile cols i ≡ cell_position mobile cols j
    → i ≡ j
unfolding cell_position
position-apart true cols i j e =
    same_parts cols i j (omega (arith, ap (λ (p : ℕ × ℕ). p.0) e))
      (omega (arith, ap (λ (p : ℕ × ℕ). p.1) e))
position-apart false cols i j e =
    same_parts cols i j (omega (arith, ap (λ (p : ℕ × ℕ). p.0) e))
      (omega (arith, ap (λ (p : ℕ × ℕ). p.1) e))

-- On a narrow page and on a wide one, of any size, every side cell of the hotspot layout stands in
-- the columns and rows that the layout has beside the main cell, below it on a narrow page and
-- right of it on a wide one, and no two stand in the same place.
pub cell_position-IsBeside :
    (mobile : Bool) (width height : ℕ) (ratio : Ratio) (count i : ℕ)
    → i < count
    → IsBeside mobile
        (side_grid mobile width height ratio count)
        (cell_position mobile (side_grid mobile width height ratio count).0 i)
      × ((j : ℕ)
          → cell_position mobile (side_grid mobile width height ratio count).0 i
            ≡ cell_position mobile (side_grid mobile width height ratio count).0 j
          → i ≡ j)
cell_position-IsBeside mobile width height ratio zero i lt = absurd (omega arith)
cell_position-IsBeside mobile width height ratio (suc n) i lt = (
  position-IsBeside mobile (suc n) i (side_grid mobile width height ratio (suc n)) lt
      (side_grid-Fits mobile width height ratio n),
  λ j. position-apart mobile (side_grid mobile width height ratio (suc n)).0 i j,
)
