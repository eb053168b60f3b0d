-- ===== src/Media/Median.antt =====
-- ctv_web/js/media.js: `medianTime`, the clock's time for cameras that do not quite agree.
pub mod Laws
pub mod Order
pub mod Ranks
use cctv_timeline_viewer_cor.Base.{
  ℕ, suc, ◌+◌, ◌-◌, ◌/◌, ◌%◌, List, [], ◌∷◌, Option, none, some, ◌>>=◌, if◌then◌else◌, leb, ◌==◌,
  length, get_elem?,
}

-- `times.filter(Number.isFinite)`, with `none` for what is not a finite number
unfoldable pub finite_times : List (Option ℕ) → List ℕ
finite_times [] = []
finite_times (none ∷ times) = finite_times times
finite_times (some t ∷ times) = t ∷ finite_times times

-- `sort((a, b) => a - b)`
unfoldable pub insert : ℕ → List ℕ → List ℕ
insert t [] = t ∷ []
insert t (u ∷ us) = if leb t u then t ∷ u ∷ us else u ∷ insert t us

unfoldable pub sort : List ℕ → List ℕ
sort [] = []
sort (t ∷ ts) = insert t (sort ts)

-- `none` is null. The mean of two times is rounded down to a thousandth.
unfoldable pub middle_of : List ℕ → Option ℕ
middle_of values =
    let middle : ℕ = length values / 2 in
    let mean = do a ← get_elem? values (middle - 1); b ← get_elem? values middle; some ((a + b) / 2)
    in if length values % 2 == 0 then mean else get_elem? values middle

unfoldable pub median_time : List (Option ℕ) → Option ℕ
median_time times =
    let values = sort (finite_times times) in if length values == 0 then none else middle_of values
