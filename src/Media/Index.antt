-- ===== src/Media/Index.antt =====
-- ctv_web/js/media.js: `intervalIndex`, two maximum trees over the ends of the recordings. A
-- Float64Array is a function from indices; every index that the code writes is inside the array.
-- The WeakMap that keeps the index of an array is left out: the index is computed at each use.
pub mod Heap
pub mod Built
pub mod Cover
use cctv_timeline_viewer_cor.Base.{
  ℕ, zero, suc, ◌+◌, ◌-◌, ◌*◌, Bool, true, false, ◌&&◌, not, List, [], ◌∷◌, Option, none, some,
  if◌then◌else◌, ltb, ◌==◌, length, Extended, minus_infinity, finite, plus_infinity, max_extended,
}
use cctv_timeline_viewer_cor.Recording.{Segment}

abbrev pub Float64Array : Type 0
Float64Array = ℕ → Extended

abbrev pub write : Float64Array → ℕ → Extended → Float64Array
write cells i value = λ j. if j == i then value else cells j

pub record Index : Type 0 where
  pub size : ℕ
  pub visible_max : Float64Array
  pub active_max : Float64Array
  pub sorted : Bool

-- `segment.end_ts || segment.start_ts`: an end of 0 counts as no end.
abbrev pub visible_end : Segment → ℕ
visible_end segment = elim (segment.end_ts) [
  | none ↦ segment.start_ts
  | some end ↦ if end == 0 then segment.start_ts else end
]

-- `segment.end_ts == null ? Infinity : segment.end_ts`
abbrev pub active_end : Segment → Extended
active_end segment = elim (segment.end_ts) [ none ↦ plus_infinity | some end ↦ finite end ]

-- `while (size < segments.length) size <<= 1`; the length is enough fuel, as the size grows.
unfoldable pub grow_size : ℕ → ℕ → ℕ → ℕ
grow_size zero count size = size
grow_size (suc fuel) count size =
    let next = grow_size fuel count (size * 2) in if ltb size count then next else size

-- `index && segment.start_ts < segments[index - 1].start_ts`
abbrev pub starts_before : Segment → Option Segment → Bool
starts_before segment none = false
starts_before segment (some previous) = ltb segment.start_ts previous.start_ts

-- The loop over the recordings, with the recording before the current one.
unfoldable pub fill_leaves : ℕ → Option Segment → List Segment → Index → Index
fill_leaves i previous [] index = index
fill_leaves i previous (segment ∷ rest) index =
    fill_leaves (suc i) (some segment) rest (record index {
      visible_max = write index.visible_max (index.size + i) (finite (visible_end segment));
      active_max = write index.active_max (index.size + i) (active_end segment);
      sorted = index.sorted && not (starts_before segment previous);
    })

-- `for (let index = size - 1; index; index--)`, on one of the two arrays: the loop writes each of
-- them from itself alone.
unfoldable pub raise_maxima : ℕ → Float64Array → Float64Array
raise_maxima zero cells = cells
raise_maxima (suc i) cells =
    raise_maxima i (write cells (suc i) (max_extended (cells (suc i * 2)) (cells (suc i * 2 + 1))))

abbrev pub empty_index : ℕ → Index
empty_index size = record {
  size = size;
  visible_max = λ i. minus_infinity;
  active_max = λ i. minus_infinity;
  sorted = true;
}

unfoldable pub interval_index : List Segment → Index
interval_index segments =
    let size = grow_size (length segments) (length segments) 1 in
    let filled = fill_leaves 0 none segments (empty_index size) in
    record filled {
      visible_max = raise_maxima (size - 1) filled.visible_max;
      active_max = raise_maxima (size - 1) filled.active_max;
    }
