-- ===== src/Timeline/Seek/Bounds.antt =====
-- Seeks stay inside what was clicked, and show the time that was sought.
use mathlib.Core.Path.{subst}
use mathlib.Core.Option.{some-injective}
use native.Mathlib.Nat.{div-le_of_le-mul}
use cctv_timeline_viewer_cor.Base.{
  ltb, leb, Bool-cases, ℕ, ◌+◌, ◌-◌, ◌*◌, ◌/◌, ◌≤◌, ◌<◌, min, max, ◌≡◌, refl, sym, ◌∙◌, inl, inr,
  ◌&&◌, Option, none, some, arith,
}
use cctv_timeline_viewer_cor.Recording.{Timeline}
use cctv_timeline_viewer_cor.Geometry.{Range}
use cctv_timeline_viewer_cor.Geometry.Laws.{recenter_range-inside}
use cctv_timeline_viewer_cor.Timeline.View.{View, show_in, ensure_timeline_time_visible}
use cctv_timeline_viewer_cor.Timeline.Pan.{IsValid, Step-IsValid, Step}
use cctv_timeline_viewer_cor.Timeline.Seek.{
  seek_to, Extent, SegmentTarget, target_end, segment_time, row_time, target_time,
}

share-le : (span offset width : ℕ) → 0 < width → offset ≤ width → span * offset / width ≤ span
share-le span offset width pos le = div-le_of_le-mul width (grind arith)

row_time-inside :
    (row : Extent) (label_width client_x : ℕ) (range : Range) (t : ℕ)
    → range.0 ≤ range.1
    → row_time row label_width range client_x ≡ some t
    → (range.0 ≤ t) × (t ≤ range.1)
unfolding row_time
row_time-inside row label_width client_x range t order e =
    let area : ℕ = row.width - label_width in
    let x : ℕ = client_x - (row.left + label_width) in
    elim (Bool-cases (ltb 0 area && leb (row.left + label_width) client_x && leb x area)) [
      | inr outside ↦ absurd (ground (arith, e, outside))
      | inl within ↦
          let part =
            share-le (range.1 - range.0) x area (ground (arith, within)) (ground (arith, within)) in
          ground (arith, part, e, within)
    ]

-- A click on a recording whose end is not before its start seeks a time between the two; a click on
-- a row, with a range in order, seeks a time in that range, or nothing.
pub target_time-inside :
    (row : Extent) (label_width client_x : ℕ) (range : Range)
    → range.0 ≤ range.1
    → ((segment : SegmentTarget)
        → segment.start ≤ target_end segment
        → (t : ℕ) → target_time (some row) (some segment) label_width client_x (some range) ≡ some t
        → (segment.start ≤ t) × (t ≤ target_end segment))
      × ((t : ℕ)
          → target_time (some row) none label_width client_x (some range) ≡ some t
          → (range.0 ≤ t) × (t ≤ range.1))
unfolding target_time segment_time row_time
target_time-inside row label_width client_x range order = (
  λ segment ahead t e.
      let width : ℕ = max 1000 segment.extent.width in
      let offset : ℕ = min width (client_x - segment.extent.left) in
      let part =
        share-le (target_end segment - segment.start) offset width (omega arith) (omega arith) in
      ground (arith, part, some-injective _ _ e),
  λ t e. row_time-inside row label_width client_x range t order e,
)

-- The range shows the clock.
abbrev pub Shows : ℕ → View → Type 0
Shows ts view = (range : Range) → view.zoom_range ≡ some range → (range.0 ≤ ts) × (ts ≤ range.1)

-- The state that a seek shows the time in: its timeline is in order and holds the time.
show_in-Shows :
    (ts : ℕ) (view : View) (range : Option Range) (timeline : Option Timeline)
    → ((t : Timeline) → timeline ≡ some t → (t.from ≤ t.to) × (t.from ≤ ts) × (ts ≤ t.to))
    → (t : Timeline) → timeline ≡ some t
    → view.zoom_range ≡ range
    → Shows ts (show_in ts 300 view range timeline).1
      × ((show_in ts 300 view range timeline).1.current_time ≡ view.current_time)
show_in-Shows ts view none timeline holds t g e = (λ r f. absurd (ground (arith, e, f)), refl)
show_in-Shows ts view (some range) none holds t g e = absurd (ground (arith, g))
show_in-Shows ts view (some range) (some timeline) holds t g e =
    let (order, after, before) = holds timeline refl in
    elim (Bool-cases (leb range.0 ts && leb ts range.1)) [
      | inl seen ↦ rw seen (
        λ r f.
            subst (λ (x : Range). (x.0 ≤ ts) × (ts ≤ x.1)) (some-injective _ _ (sym e ∙ f))
              (ground (arith, seen)),
        refl,
      )
      | inr hidden ↦ rw hidden (
        λ r f.
            subst (λ (x : Range). (x.0 ≤ ts) × (ts ≤ x.1)) (some-injective _ _ f)
              ((recenter_range-inside ts range.0 range.1 timeline.from timeline.to 300 order
                  (omega arith)).3
                after before),
        refl,
      )
    ]

-- A seek to a time of the timeline keeps the range on view and the clock inside the timeline, and
-- the range, if there is one, shows the time.
pub seek_to-IsValid :
    (ts : ℕ) (view : View) (timeline : Timeline)
    → view.timeline ≡ some timeline
    → (timeline.from ≤ ts) × (ts ≤ timeline.to)
    → IsValid view
    → IsValid (seek_to ts view)
      × Shows ts (seek_to ts view)
      × ((seek_to ts view).current_time ≡ some ts)
unfolding seek_to ensure_timeline_time_visible
seek_to-IsValid ts view timeline e inside valid =
    let sought : View = record view { current_time = some ts } in
    let now : IsValid sought = λ other g.
      let (order, ranges, clock) = valid other g in
      let same : timeline ≡ other = some-injective _ _ (sym e ∙ g) in
      (
        order,
        ranges,
        λ time h.
            subst (λ (t : Timeline). (t.from ≤ time) × (time ≤ t.to)) same
              (ground (arith, some-injective _ _ h)),
      ) in
    let step : Step sought ((ensure_timeline_time_visible ts 300 sought).1) =
      Step.shown ts 300 sought (omega arith) in
    let shows =
      show_in-Shows ts sought view.zoom_range view.timeline
        (λ t g. ((now t g).0, ((now t g).2 ts refl).0, ((now t g).2 ts refl).1)) timeline e refl in
    (Step-IsValid sought _ step now, shows.0, shows.1)
