-- ===== src/Media/Query/Between.antt =====
-- `lastSegmentStartingBetween` returns a recording of the range with the latest start.

use cctv_timeline_viewer_cor.Base.{
  ℕ, zero, suc, ◌≡◌, refl, List, [], ◌∷◌, Option, none, some, if◌then◌else◌, arith, tests, ltb, leb,
  get_elem?, get_elem?-some, Bool-cases, inl, inr,
}
use cctv_timeline_viewer_cor.Recording.{Segment}
use cctv_timeline_viewer_cor.Media.Search.Bounds.{IsSorted, Splits, upper_bound_start-Splits}
use cctv_timeline_viewer_cor.Media.Index.{interval_index}
use cctv_timeline_viewer_cor.Media.Index.Built.{interval_index-IsIndex}
use cctv_timeline_viewer_cor.Media.Query.{
  starts_between, last_started_after, last_segment_starting_between,
}
use cctv_timeline_viewer_cor.Media.Query.Scan.{Latest, scan_latest-Latest}

test_last :
    (segments : List Segment) (from last : ℕ) (s : Segment)
    → get_elem? segments last ≡ some s
    → last_started_after segments from (suc last) ≡ (if ltb from s.start_ts then some s else none)
unfolding last_started_after
test_last segments from last s e = rw (e, last_started_after)

last_started_after-Latest :
    (segments : List Segment) (from to n : ℕ)
    → IsSorted segments
    → Splits segments to n
    → Latest (starts_between from to) segments (last_started_after segments from n)
unfolding last_started_after
last_started_after-Latest segments from to zero sorted split =
    λ j t e. ground (arith, split.later j t e)
last_started_after-Latest segments from to (suc last) sorted split =
    let found = get_elem?-some segments last (omega (arith, split.inside)) in
    let s = found.0 in
    let e = found.1 in
    rw (test_last segments from last s e) (elim (Bool-cases (ltb from s.start_ts)) [
      | inl after ↦ rw after (
        last,
        e,
        ground (arith, split.started last s e),
        λ j t f h. elim (Bool-cases (leb j last)) [
          | inl before ↦ sorted j last t s f e (omega tests)
          | inr beyond ↦ absurd (ground (arith, split.later j t f, h, beyond))
        ],
      )
      | inr early ↦ rw early (λ j t f. elim (Bool-cases (leb j last)) [
        | inl before ↦ ground (arith, sorted j last t s f e, early, before)
        | inr beyond ↦ ground (arith, split.later j t f, beyond)
      ])
    ])

-- `lastSegmentStartingBetween` never faults: it returns a recording that starts after the one bound
-- and by the other, with the latest start among those, or nothing where none starts there. This
-- holds for every array, in order of starts or not, and for bounds in either order.
pub last_segment_starting_between-Latest :
    (segments : List Segment) (from to : ℕ)
    → (r : Option Segment) × (last_segment_starting_between segments from to ≡ some r)
      × Latest (starts_between from to) segments r
unfolding last_segment_starting_between
last_segment_starting_between-Latest [] from to = (none, refl, λ j t e. absurd (ground arith))
last_segment_starting_between-Latest (s ∷ rest) from to = elim (Bool-cases (ltb to from)) [
  | inl empty ↦ rw empty (none, refl, λ j t e. ground (arith, empty))
  | inr range ↦ elim (Bool-cases ((interval_index (s ∷ rest)).sorted)) [
    | inr shuffled ↦
        rw (range, shuffled) (_, refl, scan_latest-Latest (starts_between from to) (s ∷ rest))
    | inl in_order ↦
        let segments : List Segment = s ∷ rest in
        let sorted = (interval_index-IsIndex segments).sorted in_order in
        let (n, e, split) = upper_bound_start-Splits segments to sorted in
        (_, rw (range, e, in_order), last_started_after-Latest segments from to n sorted split)
  ]
]
