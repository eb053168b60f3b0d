-- ===== src/Media/Query/Latest.antt =====
-- `latestRecordingAt`: the tree walk and the scan both return an active recording with the latest
-- start, or nothing where none is active.
use native.Mathlib.Nat.{two-pow-succ}
use cctv_timeline_viewer_cor.Base.{
  ℕ, zero, suc, ◌+◌, ◌-◌, ◌*◌, ◌/◌, ◌^◌, ◌≤◌, ◌<◌, ◌≡◌, refl, ap, ◌>>=◌, true, false, ◌||◌, not,
  List, [], ◌∷◌, Option, none, some, if◌then◌else◌, arith, tests, ltb, leb, ==_iff, ne_test,
  get_elem?, get_elem?-some, get_elem?-lt, Bool-cases, inl, inr, finite, lte, lte_trans,
}
use cctv_timeline_viewer_cor.Recording.{Segment}
use cctv_timeline_viewer_cor.Media.Search.{is_open_at}
use cctv_timeline_viewer_cor.Media.Search.Bounds.{IsSorted, Splits, upper_bound_start-Splits}
use cctv_timeline_viewer_cor.Media.Index.{Index, active_end, interval_index}
use cctv_timeline_viewer_cor.Media.Index.Built.{IsIndex, interval_index-IsIndex}
use cctv_timeline_viewer_cor.Media.Index.Cover.{
  Covers, Covers-root, Covers-lower, Covers-upper, pow_positive, lt-pow, leaf-le,
}
use cctv_timeline_viewer_cor.Media.Query.{
  find_rightmost_active, is_active, latest_recording_at, in_order_answer,
}
use cctv_timeline_viewer_cor.Media.Query.Scan.{Latest, scan_latest-Latest}

module _ (segments : List Segment) (index : Index) (ok : IsIndex segments index)
    (limit timestamp : ℕ) where
  -- No recording of this range of indices, up to the limit, is still open.
  abbrev AllEnded : (first above : ℕ) → Type 0
  AllEnded first above =
      (j : ℕ) (s : Segment)
      → first ≤ j
      → j < above
      → j ≤ limit
      → get_elem? segments j ≡ some s
      → lte (active_end s) (finite timestamp) ≡ true

  -- What the walk returns for the leaves from `left`.
  abbrev Rightmost : (left above : ℕ) → Option ℕ → Type 0
  Rightmost left above none = AllEnded left above
  Rightmost left above (some i) =
      (left ≤ i)
      × (i < above)
      × (i ≤ limit)
      × (lte (index.active_max (index.size + i)) (finite timestamp) ≡ false)
      × AllEnded (suc i) above

  pruned-AllEnded :
      (h node left : ℕ)
      → Covers index.size h node left
      → (ltb limit left || lte (index.active_max node) (finite timestamp)) ≡ true
      → AllEnded left (left + 2 ^ h)
  pruned-AllEnded h node left c cut j s lo hi le e = ground (
    arith,
    leaf-le segments active_end index.size index.active_max ok.active h node left c j s lo hi e,
    lte_trans (active_end s) (index.active_max node) (finite timestamp),
  )

  -- The upper half came back empty, so the answer for both is that for the lower half.
  Rightmost-widen :
      (left middle above : ℕ) (r : Option ℕ)
      → AllEnded middle above
      → middle ≤ above
      → Rightmost left middle r
      → Rightmost left above r
  Rightmost-widen left middle above none ended le p = λ j s lo hi lim e.
      elim (Bool-cases (ltb j middle)) [
        | inl low ↦ p j s lo (omega tests) lim e
        | inr high ↦ ended j s (omega tests) hi lim e
      ]
  Rightmost-widen left middle above (some i) ended le (a, b, c, d, p) = (
    a,
    omega arith,
    c,
    d,
    λ j s lo hi lim e. elim (Bool-cases (ltb j middle)) [
      | inl low ↦ p j s lo (omega tests) lim e
      | inr high ↦ ended j s (omega tests) hi lim e
    ],
  )

  -- What a search of the leaves from `left` amounts to.
  abbrev Finds : (left above : ℕ) → Option (Option ℕ) → Type 0
  Finds left above found = (r : Option ℕ) × (found ≡ some r) × Rightmost left above r

  -- The upper half is searched, or stands beyond the limit.
  upper_half :
      (middle above : ℕ) (upper : Option (Option ℕ))
      → Finds (middle + 1) above upper
      → Finds (middle + 1) above (if ltb middle limit then upper else some none)
  upper_half middle above upper finds = elim (Bool-cases (ltb middle limit)) [
    | inl below ↦ rw below finds
    | inr at ↦ rw at (none, refl, λ j s lo hi lim e. absurd (omega tests))
  ]

  both_halves :
      (left middle above : ℕ) (lower upper : Option (Option ℕ))
      → (left ≤ middle + 1) × (middle + 1 ≤ above)
      → Finds left (middle + 1) lower
      → Finds (middle + 1) above upper
      → Finds left above (upper >>= λ found. elim found [ none ↦ lower | some i ↦ some (some i) ])
  both_halves left middle above lower upper le (l, e, p) (none, f, q) =
      rw f (l, e, Rightmost-widen left (middle + 1) above l q le.1 p)
  both_halves left middle above lower upper le (l, e, p) (some i, f, q) =
      rw f (some i, refl, (omega arith, q.1, q.2, q.3, q.4))

  walk-Rightmost :
      (fuel h node left right above : ℕ)
      → h < fuel
      → Covers index.size h node left
      → above ≡ left + 2 ^ h
      → right + 1 ≡ above
      → (r : Option ℕ) × (find_rightmost_active fuel index node left right limit timestamp ≡ some r)
        × Rightmost left above r
  unfolding find_rightmost_active
  walk-Rightmost zero h node left right above enough c f e = absurd (omega arith)
  walk-Rightmost (suc fuel) zero node left right above enough c f e =
      elim (Bool-cases (ltb limit left || lte (index.active_max node) (finite timestamp))) [
        | inl cut ↦ rw cut (none, refl, rw f (pruned-AllEnded zero node left c cut))
        | inr go ↦
            let same : node ≡ index.size + left = omega (arith, c.at) in
            rw (go, (==_iff left right).1 (omega arith))
              (
                some left,
                refl,
                (
                  omega arith,
                  omega arith,
                  ground arith,
                  ground (arith, ap index.active_max same),
                  λ j s lo hi. absurd (omega arith),
                ),
              )
      ]
  walk-Rightmost (suc fuel) (suc h) node left right above enough c f e =
      elim (Bool-cases (ltb limit left || lte (index.active_max node) (finite timestamp))) [
        | inl cut ↦ rw cut (none, refl, rw f (pruned-AllEnded (suc h) node left c cut))
        | inr go ↦
            let middle : ℕ = (left + right) / 2 in
            let split : middle + 1 ≡ left + 2 ^ h = omega (arith, two-pow-succ h, pow_positive h) in
            let lower =
              walk-Rightmost fuel h (node * 2) left middle (middle + 1) (omega arith)
                (Covers-lower c) split refl in
            let upper =
              walk-Rightmost fuel h (node * 2 + 1) (middle + 1) right above (omega arith)
                (rw split (Covers-upper c)) (omega (arith, two-pow-succ h)) e in
            rw (go, ne_test left right (omega (arith, two-pow-succ h, pow_positive h)))
              (both_halves left middle above _ _ (omega (arith, two-pow-succ h)) lower
                (upper_half middle above _ upper))
      ]

-- The test `timestamp < end` and the pruning test `activeMax <= timestamp` are opposite.
is_open_at-lte :
    (timestamp : ℕ) (s : Segment)
    → is_open_at timestamp s ≡ not (lte (active_end s) (finite timestamp))
unfolding is_open_at
is_open_at-lte timestamp s = ground arith

module _ (segments : List Segment) (timestamp : ℕ) where
  -- The answer of the walk, read as a recording.
  walk-Latest :
      (n : ℕ) (r : Option ℕ)
      → IsSorted segments
      → Splits segments timestamp (suc n)
      → Rightmost segments
          (interval_index segments)
          (interval_index-IsIndex segments)
          n
          timestamp
          0
          (interval_index segments).size
          r
      → (s : Option Segment) × (elim r [ none ↦ some none | some i ↦ some (get_elem? segments i) ]
          ≡ some s)
        × Latest (is_active timestamp) segments s
  walk-Latest n none sorted split ended = (
    none,
    refl,
    λ j s e. ground (
      arith,
      ended j s (omega arith)
          (omega (arith, get_elem?-lt segments j e, (interval_index-IsIndex segments).room)),
      e,
      split.later j s e,
      is_open_at-lte timestamp s,
    ),
  )
  walk-Latest n (some i) sorted split (lo, hi, le, still, ended) =
      let found = get_elem?-some segments i (omega (arith, split.inside)) in
      let s = found.0 in
      let e = found.1 in
      let leaf = (interval_index-IsIndex segments).active.leaf i s e in
      (
        some s,
        ap some e,
        (
          i,
          e,
          ground (arith, split.started i s e, is_open_at-lte timestamp s, leaf, still),
          λ j t f active. elim (Bool-cases (leb j i)) [
            | inl before ↦ sorted j i t s f e (omega tests)
            | inr after ↦ absurd (
                ground (
                  arith,
                  ended j t (omega tests) (
                      omega
                        (arith, get_elem?-lt segments j f, (interval_index-IsIndex segments).room)),
                  f,
                  split.later j t f,
                  is_open_at-lte timestamp t,
                  active,
                ))
          ],
        ),
      )

  -- The branch for recordings in order, from what the binary search returned.
  from_split :
      (n : ℕ)
      → IsSorted segments
      → Splits segments timestamp n
      → (r : Option Segment) × (in_order_answer segments timestamp n ≡ some r)
        × Latest (is_active timestamp) segments r
  unfolding in_order_answer
  from_split zero sorted split = (none, refl, λ j t e. ground (arith, split.later j t e))
  from_split (suc n) sorted split =
      let index = interval_index segments in
      let ok : IsIndex segments index = interval_index-IsIndex segments in
      let power : index.size ≡ 2 ^ ok.height = ok.power in
      let (r, e, p) =
        walk-Rightmost segments index ok n timestamp (index.size + 1) ok.height 1 0 (index.size - 1)
          index.size (omega (arith, power, lt-pow ok.height))
          (Covers-root index.size ok.height power) (omega (arith, power))
          (omega (arith, power, pow_positive ok.height)) in
      let (s, f, q) = walk-Latest n r sorted split p in (s, rw e f, q)

-- `latestRecordingAt` never faults: it returns a recording that has started and not ended, with the
-- latest start among those, or nothing where no recording is active. This holds for every array, in
-- order of starts or not.
pub latest_recording_at-Latest :
    (segments : List Segment) (timestamp : ℕ)
    → (r : Option Segment) × (latest_recording_at segments timestamp ≡ some r)
      × Latest (is_active timestamp) segments r
unfolding latest_recording_at
latest_recording_at-Latest [] timestamp = (none, refl, λ j t e. absurd (ground arith))
latest_recording_at-Latest (s ∷ rest) timestamp =
    elim (Bool-cases ((interval_index (s ∷ rest)).sorted)) [
      | inr shuffled ↦ rw shuffled (_, refl, scan_latest-Latest (is_active timestamp) (s ∷ rest))
      | inl in_order ↦
          let segments : List Segment = s ∷ rest in
          let sorted = (interval_index-IsIndex segments).sorted in_order in
          let (n, e, split) = upper_bound_start-Splits segments timestamp sorted in
          let (r, f, p) = from_split segments timestamp n sorted split in
          (r, rw (e, f, in_order), p)
    ]
