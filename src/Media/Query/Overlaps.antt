-- ===== src/Media/Query/Overlaps.antt =====
-- `overlappingSegments` returns what the plain scan returns, for every list of recordings.
use native.Mathlib.Nat.{two-pow-succ}
use cctv_timeline_viewer_cor.Base.{
  ℕ, zero, suc, ◌+◌, ◌*◌, ◌/◌, ◌^◌, ◌<◌, ◌≡◌, refl, ap, sym, ◌∙◌, Bool, true, false, ◌&&◌, ◌||◌,
  List, [], some, if◌then◌else◌, arith, ltb, leb, ==_iff, Bool-cases, inl, inr, finite, lt_extended,
  lte_trans, ne_test, ◌∷◌, ◌==◌, ◌-◌,
}
use cctv_timeline_viewer_cor.Recording.{Segment}
use cctv_timeline_viewer_cor.Media.Search.Bounds.{IsSorted, Splits, upper_bound_start-Splits}
use cctv_timeline_viewer_cor.Media.Index.{interval_index}
use cctv_timeline_viewer_cor.Media.Index.Built.{interval_index-IsIndex}
use cctv_timeline_viewer_cor.Media.Index.Cover.{lt-pow, Covers-root}
use cctv_timeline_viewer_cor.Media.Query.Picks.{picks-filter}
use cctv_timeline_viewer_cor.Base.{filter}
use cctv_timeline_viewer_cor.Media.Index.{Index, visible_end}
use cctv_timeline_viewer_cor.Media.Index.Built.{IsIndex}
use cctv_timeline_viewer_cor.Media.Index.Cover.{
  Covers, Covers-lower, Covers-upper, pow_positive, leaf-le,
}
use cctv_timeline_viewer_cor.Media.Query.{collect_overlaps, push_at, overlapping_segments, overlaps}
use cctv_timeline_viewer_cor.Media.Query.Picks.{picks, picks-add, picks-one, picks-nothing}

module _ (segments : List Segment) (index : Index) (ok : IsIndex segments index)
    (limit from : ℕ) where
  -- What the walk keeps: a recording up to the limit whose end is not before `from`.
  abbrev keep : ℕ → Segment → Bool
  keep i s = leb i limit && leb from (visible_end s)

  -- A cell that the walk prunes has nothing to keep below it.
  pruned-nothing :
      (h node left : ℕ)
      → Covers index.size h node left
      → (ltb limit left || lt_extended (index.visible_max node) (finite from)) ≡ true
      → picks keep segments left (2 ^ h) ≡ []
  pruned-nothing h node left c cut = picks-nothing keep segments left (2 ^ h) λ j s lo hi e.
      ground (
        arith,
        leaf-le segments (λ t. finite (visible_end t)) index.size index.visible_max ok.visible h
            node left c j s lo hi e,
        lte_trans (finite (visible_end s)) (index.visible_max node) (finite from),
      )

  leaf_pick :
      (node left : ℕ)
      → Covers index.size 0 node left
      → (ltb limit left || lt_extended (index.visible_max node) (finite from)) ≡ false
      → push_at segments left ≡ picks keep segments left 1
  leaf_pick node left c go = sym (
      picks-one keep segments left λ s e.
        let same : node ≡ index.size + left = omega (arith, c.at) in
        ground (arith, ap index.visible_max same, ok.visible.leaf left s e))

  -- The upper half is searched, or has nothing to keep.
  upper_half :
      (fuel h node left right middle : ℕ)
      → collect_overlaps fuel index segments (node * 2 + 1) (middle + 1) right limit from
        ≡ some (picks keep segments (middle + 1) (2 ^ h))
      → (if ltb middle limit
          then collect_overlaps fuel index segments (node * 2 + 1) (middle + 1) right limit from
          else some [])
        ≡ some (picks keep segments (middle + 1) (2 ^ h))
  upper_half fuel h node left right middle ih = elim (Bool-cases (ltb middle limit)) [
    | inl below ↦ rw (below, ih)
    | inr at ↦
        rw (at, picks-nothing keep segments (middle + 1) (2 ^ h) (λ j s lo hi e. ground arith))
  ]

  collect-picks :
      (fuel h node left right : ℕ)
      → h < fuel
      → Covers index.size h node left
      → right + 1 ≡ left + 2 ^ h
      → collect_overlaps fuel index segments node left right limit from
        ≡ some (picks keep segments left (2 ^ h))
  unfolding collect_overlaps
  collect-picks zero h node left right enough c e = absurd (omega arith)
  collect-picks (suc fuel) zero node left right enough c e =
      elim (Bool-cases (ltb limit left || lt_extended (index.visible_max node) (finite from))) [
        | inl cut ↦ rw (cut, pruned-nothing zero node left c cut)
        | inr go ↦ rw (go, (==_iff left right).1 (omega arith), leaf_pick node left c go)
      ]
  collect-picks (suc fuel) (suc h) node left right enough c e =
      elim (Bool-cases (ltb limit left || lt_extended (index.visible_max node) (finite from))) [
        | inl cut ↦ rw (cut, pruned-nothing (suc h) node left c cut)
        | inr go ↦
            let middle : ℕ = (left + right) / 2 in
            let split : middle + 1 ≡ left + 2 ^ h = omega (arith, two-pow-succ h, pow_positive h) in
            let lower =
              collect-picks fuel h (node * 2) left middle (omega arith) (Covers-lower c) split in
            let upper =
              collect-picks fuel h (node * 2 + 1) (middle + 1) right (omega arith)
                (rw split (Covers-upper c)) (omega (arith, two-pow-succ h)) in
            rw
              (
                go,
                ne_test left right (omega (arith, two-pow-succ h, pow_positive h)),
                lower,
                upper_half fuel h node left right middle upper,
                split,
              )
              (ap some (
                sym (picks-add keep segments left (2 ^ h) (2 ^ h))
                ∙ ap (picks keep segments left) (sym (two-pow-succ h))))
      ]

module _ (segments : List Segment) (from to : ℕ) where
  -- Nothing overlaps where the walk is not begun.
  none_overlaps :
      (n : ℕ)
      → IsSorted segments
      → Splits segments to n
      → (n == 0 || lt_extended ((interval_index segments).visible_max 1) (finite from)) ≡ true
      → filter (overlaps from to) segments ≡ []
  none_overlaps n sorted split cut =
      let index = interval_index segments in
      let ok : IsIndex segments index = interval_index-IsIndex segments in
      sym (
        picks-filter (λ i. overlaps from to) (overlaps from to) segments index.size ok.room
          (λ i s e. refl))
      ∙ picks-nothing (λ i. overlaps from to) segments 0 index.size
          (λ j s lo hi e. ground (
            arith,
            split.later j s e,
            leaf-le segments (λ t. finite (visible_end t)) index.size index.visible_max ok.visible
                ok.height 1 0 (Covers-root index.size ok.height ok.power) j s lo
                (omega (arith, ok.power)) e,
            lte_trans (finite (visible_end s)) (index.visible_max 1) (finite from),
          ))

  walk-filter :
      (n : ℕ)
      → Splits segments to n
      → (n == 0 || lt_extended ((interval_index segments).visible_max 1) (finite from)) ≡ false
      → collect_overlaps
          ((interval_index segments).size + 1)
          (interval_index segments)
          segments
          1
          0
          ((interval_index segments).size - 1)
          (n - 1)
          from
        ≡ some (filter (overlaps from to) segments)
  walk-filter n split go =
      let index = interval_index segments in
      let ok : IsIndex segments index = interval_index-IsIndex segments in
      let power : index.size ≡ 2 ^ ok.height = ok.power in
      collect-picks segments index ok (n - 1) from (index.size + 1) ok.height 1 0 (index.size - 1)
        (omega (arith, power, lt-pow ok.height)) (Covers-root index.size ok.height power)
        (omega (arith, power, pow_positive ok.height))
      ∙ ap some (
          picks-filter _ (overlaps from to) segments (2 ^ ok.height) (omega (arith, ok.room, power))
            λ i s e. ground (arith, split.later i s e, split.started i s e))

-- `overlappingSegments`: a range that ends before it begins has no recordings, and any other has
-- the recordings that the plain scan finds, in their order; the tree walk never faults. This holds
-- for every array, in order of starts or not.
pub overlapping_segments-filter :
    (segments : List Segment) (from to : ℕ)
    → overlapping_segments segments from to
      ≡ some (if ltb to from then [] else filter (overlaps from to) segments)
unfolding overlapping_segments
overlapping_segments-filter [] from to = ground arith
overlapping_segments-filter (s ∷ rest) from to = elim (Bool-cases (ltb to from)) [
  | inl empty ↦ rw empty
  | inr range ↦ elim (Bool-cases ((interval_index (s ∷ rest)).sorted)) [
    | inr shuffled ↦ rw (range, shuffled)
    | inl sorted ↦
        let segments : List Segment = s ∷ rest in
        let in_order = (interval_index-IsIndex segments).sorted sorted in
        let (n, e, split) = upper_bound_start-Splits segments to in_order in
        elim (Bool-cases
          (n == 0 || lt_extended ((interval_index segments).visible_max 1) (finite from))) [
            | inl cut ↦
                rw (range, e, cut, none_overlaps segments from to n in_order split cut, sorted)
            | inr go ↦ rw (range, e, go, walk-filter segments from to n split go, sorted)
          ]
  ]
]
