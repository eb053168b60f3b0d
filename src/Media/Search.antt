-- ===== src/Media/Search.antt =====
-- ctv_web/js/media.js: the two binary searches over the starts of the recordings.
-- `>> 1` is a halving, since an index stays below 2 ^ 31. A loop takes fuel, and the length of the
-- array plus one is enough: each round shortens the range. `none` is a read past the end of the
-- array, where the source would throw, or the end of the fuel.
pub mod Bounds
pub mod Recorded
use cctv_timeline_viewer_cor.Base.{
  ℕ, zero, suc, ◌+◌, ◌-◌, ◌/◌, Bool, true, List, Option, none, some, ◌>>=◌, if◌then◌else◌, ltb, leb,
  length, get_elem?,
}
use cctv_timeline_viewer_cor.Recording.{Segment}

-- The loop of `upperBoundStart`.
unfoldable pub upper_bound_loop : ℕ → List Segment → ℕ → ℕ → ℕ → Option ℕ
upper_bound_loop zero segments timestamp low high = none
upper_bound_loop (suc fuel) segments timestamp low high =
    let middle = (low + high) / 2 in
    let right = upper_bound_loop fuel segments timestamp (middle + 1) high in
    let left = upper_bound_loop fuel segments timestamp low middle in
    let round = do
      segment ← get_elem? segments middle
      if leb segment.start_ts timestamp then right else left
    in if ltb low high then round else some low

unfoldable pub upper_bound_start : List Segment → ℕ → Option ℕ
upper_bound_start segments timestamp =
    upper_bound_loop (suc (length segments)) segments timestamp 0 (length segments)

-- The loop of `recordingAt`, whose `high` is the last index: that is -1 where the range is empty, so
-- the model carries the index above it. The result is the final `candidate`.
unfoldable pub recording_at_loop :
    ℕ → List Segment → ℕ → ℕ → ℕ → Option Segment → Option (Option Segment)
recording_at_loop zero segments timestamp low above candidate = none
recording_at_loop (suc fuel) segments timestamp low above candidate =
    let middle = (low + (above - 1)) / 2 in
    let right = λ (segment : Segment).
      recording_at_loop fuel segments timestamp (middle + 1) above (some segment) in
    let left = recording_at_loop fuel segments timestamp low middle candidate in
    let round = do
      segment ← get_elem? segments middle
      if leb segment.start_ts timestamp then right segment else left
    in if ltb low above then round else some candidate

-- `candidate.end_ts == null || timestamp < candidate.end_ts`
unfoldable pub is_open_at : ℕ → Segment → Bool
is_open_at timestamp segment = elim (segment.end_ts) [ none ↦ true | some end ↦ ltb timestamp end ]

unfoldable pub recording_at : List Segment → ℕ → Option (Option Segment)
recording_at segments timestamp = do
  candidate ← recording_at_loop (suc (length segments)) segments timestamp 0 (length segments) none
  elim candidate [
    | none ↦ some none
    | some segment ↦ some (if is_open_at timestamp segment then some segment else none)
  ]
