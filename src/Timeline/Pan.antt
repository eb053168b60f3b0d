-- ===== src/Timeline/Pan.antt =====
-- Panning and zooming stay inside the limits of the timeline.
use mathlib.Core.Path.{subst}
use mathlib.Core.Option.{some-injective}
use cctv_timeline_viewer_cor.Base.{
  leb, ◌==◌, if_cases, Bool-cases, ℕ, suc, ◌+◌, ◌-◌, ◌≤◌, ◌<◌, ◌≡◌, refl, sym, ◌∙◌, ◌⊎◌, inl, inr,
  ◌&&◌, ◌||◌, Option, none, some, arith, ◌*◌,
}
use cctv_timeline_viewer_cor.Recording.{Timeline}
use cctv_timeline_viewer_cor.Geometry.{Range, recenter_range}
use cctv_timeline_viewer_cor.Geometry.Laws.{recenter_range-inside}
use cctv_timeline_viewer_cor.Timeline.Whole.{ℤ, pos, negsuc, neg, scale}
use cctv_timeline_viewer_cor.Timeline.View.{
  View, ensure_timeline_time_visible, pan_range, same_range, pan_zoom_by_pixels, pan_in, wheel_in,
  show_in, zoom_in, fit_in, zoom_center, wheel, zoom, zoom_fit,
}

-- A range in order inside the limits.
abbrev pub IsInside : Range → Range → Type 0
IsInside limits range = (limits.0 ≤ range.0) × (range.0 ≤ range.1) × (range.1 ≤ limits.1)

-- The end at which a movement stops, where the limits cut it.
abbrev pub Moves : Range → Range → ℤ → Range → Type 0
Moves limits range (pos d) next =
    ((range.1 + d ≤ limits.1) × (next.0 ≡ range.0 + d))
    ⊎ ((limits.1 < range.1 + d) × (next.1 ≡ limits.1))
Moves limits range (negsuc d) next =
    ((limits.0 + suc d ≤ range.0) × (next.0 + suc d ≡ range.0))
    ⊎ ((range.0 < limits.0 + suc d) × (next.0 ≡ limits.0))

-- A range inside the limits that is panned stays inside them and keeps its width; it moves by the
-- whole distance if that fits, and up to the limit if it does not.
pub pan_range-IsInside :
    (limits range : Range) (time : ℤ)
    → IsInside limits range
    → IsInside limits (pan_range limits range time)
      × ((pan_range limits range time).1 + range.0 ≡ (pan_range limits range time).0 + range.1)
      × Moves limits range time (pan_range limits range time)
unfolding pan_range
pan_range-IsInside (lowest, highest) (z0, z1) (pos d) inside = ground arith
pan_range-IsInside (lowest, highest) (z0, z1) (negsuc d) inside = ground arith

-- The ends of the timeline are in order, and the range on view and the clock are inside them.
abbrev pub IsValid : View → Type 0
IsValid view =
    (timeline : Timeline)
    → view.timeline ≡ some timeline
    → (timeline.from ≤ timeline.to)
      × ((range : Range)
          → view.zoom_range ≡ some range
          → IsInside (timeline.from, timeline.to) range)
      × ((time : ℕ) → view.current_time ≡ some time → (timeline.from ≤ time) × (time ≤ timeline.to))

-- What the user can do to the range on view.
pub data Step : View → View → Type 0 where
  panned : (delta_x : ℤ) (view : View) → Step view ((pan_zoom_by_pixels delta_x view).1)
  wheeled : (delta : ℤ) {view next : View} → wheel delta view ≡ some next → Step view next
  zoomed : (factor : ℕ) {view next : View} → zoom factor view ≡ some next → Step view next
  fitted : (view : View) → Step view (zoom_fit view)
  shown :
      (ts anchor : ℕ) (view : View)
      → anchor ≤ 1000
      → Step view ((ensure_timeline_time_visible ts anchor view).1)

-- An operation leaves the state alone, or puts a range inside the timeline on view.
abbrev Turns : View → View → Type 0
Turns view next =
    (next ≡ view)
    ⊎ ((range : Range) × (timeline : Timeline) × (view.timeline ≡ some timeline)
        × IsInside (timeline.from, timeline.to) range
        × (next ≡ record view { zoom_range = some range }))

Turns-IsValid : (view next : View) → IsValid view → Turns view next → IsValid next
Turns-IsValid view next valid (inl same) = subst IsValid (sym same) valid
Turns-IsValid view next valid (inr (range, timeline, f, inside, e)) =
    subst IsValid (sym e) (λ other g.
      let (order, ranges, clock) = valid other g in
      let same : timeline ≡ other = some-injective _ _ (sym f ∙ g) in
      (
        order,
        λ r h.
            subst (λ x. IsInside (other.from, other.to) x) (some-injective _ _ h)
              (subst (λ (t : Timeline). IsInside (t.from, t.to) range) same inside),
        clock,
      ))

module _ (view : View) (valid : IsValid view) where
  pan-Turns :
      (delta_x : ℤ) (range : Option Range) (timeline : Option Timeline)
      → view.zoom_range ≡ range
      → view.timeline ≡ timeline
      → Turns view ((pan_in delta_x view range timeline).1)
  pan-Turns delta_x none timeline e f = inl refl
  pan-Turns delta_x (some range) none e f = inl refl
  pan-Turns delta_x (some range) (some timeline) e f =
      let distance : ℤ = neg (scale delta_x (range.1 - range.0) view.row_width) in
      let next : Range = pan_range (timeline.from, timeline.to) range distance in
      elim (Bool-cases (view.row_width == 0 || same_range next range)) [
        | inl stays ↦ inl (rw stays refl)
        | inr moves ↦ inr (
          next,
          timeline,
          f,
          (pan_range-IsInside (timeline.from, timeline.to) range distance
              ((valid timeline f).1 range e)).0,
          rw moves refl,
        )
      ]

  wheel-Turns :
      (delta : ℤ) (range : Option Range) (timeline : Option Timeline) (next : View)
      → view.zoom_range ≡ range
      → view.timeline ≡ timeline
      → wheel_in delta view range timeline ≡ some next
      → Turns view next
  wheel-Turns delta none timeline next e f z = inl (sym (some-injective _ _ z))
  wheel-Turns delta (some range) none next e f z = inl (sym (some-injective _ _ z))
  wheel-Turns delta (some range) (some timeline) next e f z =
      let distance : ℤ = scale delta ((range.1 - range.0) * 800) (view.row_width * 1000) in
      let turned : Range = pan_range (timeline.from, timeline.to) range distance in
      let there : View = record view { zoom_range = some turned } in
      if_cases (λ (o : Option View). o ≡ some next → Turns view next) (view.row_width == 0)
        {x = none} {y = some there} (λ zero_width g. absurd (ground (arith, g)))
        (λ wide g. inr (
          turned,
          timeline,
          f,
          (pan_range-IsInside (timeline.from, timeline.to) range distance
              ((valid timeline f).1 range e)).0,
          sym (some-injective _ _ g),
        ))
        z

  fit-Turns :
      (timeline : Option Timeline) → view.timeline ≡ timeline → Turns view (fit_in view timeline)
  fit-Turns none f = inl refl
  fit-Turns (some timeline) f = inr (
    (timeline.from, timeline.to),
    timeline,
    f,
    (omega arith, (valid timeline f).0, omega arith),
    refl,
  )

  show-Turns :
      (ts anchor : ℕ) (range : Option Range) (timeline : Option Timeline)
      → anchor ≤ 1000
      → view.timeline ≡ timeline
      → Turns view ((show_in ts anchor view range timeline).1)
  show-Turns ts anchor none timeline a f = inl refl
  show-Turns ts anchor (some range) none a f = inl refl
  show-Turns ts anchor (some range) (some timeline) a f =
      elim (Bool-cases (leb range.0 ts && leb ts range.1)) [
        | inl seen ↦ inl (rw seen refl)
        | inr hidden ↦
            let inside =
              recenter_range-inside ts range.0 range.1 timeline.from timeline.to anchor
                (valid timeline f).0 a in
            inr (
              recenter_range ts range (timeline.from, timeline.to) anchor,
              timeline,
              f,
              (inside.0, omega (arith, inside), inside.1),
              rw hidden refl,
            )
      ]

  center-inside :
      (timeline : Timeline) (range : Range) (time : Option ℕ)
      → view.timeline ≡ some timeline
      → view.zoom_range ≡ some range
      → view.current_time ≡ time
      → (timeline.from ≤ zoom_center time range) × (zoom_center time range ≤ timeline.to)
  center-inside timeline range (some time) f e g = (valid timeline f).2 time g
  center-inside timeline range none f e g =
      let inside = (valid timeline f).1 range e in (omega (arith, inside), omega (arith, inside))

  zoom-Turns :
      (factor : ℕ) (range : Option Range) (timeline : Option Timeline) (next : View)
      → view.zoom_range ≡ range
      → view.timeline ≡ timeline
      → zoom_in factor view range timeline ≡ some next
      → Turns view next
  zoom-Turns factor none timeline next e f z = inl (sym (some-injective _ _ z))
  zoom-Turns factor (some range) none next e f z = absurd (ground arith)
  zoom-Turns factor (some range) (some timeline) next e f z =
      let inside = center-inside timeline range view.current_time f e refl in
      inr (
        _,
        timeline,
        f,
        (omega arith, omega (arith, inside), omega arith),
        sym (some-injective _ _ z),
      )

-- Panning, the wheel over rows that have a width, zooming, fitting and bringing a time into view keep
-- the range on view inside the timeline with its ends in order, whatever the distance and the factor,
-- if it was there before, as the clock is.
pub Step-IsValid : (view next : View) → Step view next → IsValid view → IsValid next
unfolding pan_zoom_by_pixels wheel zoom zoom_fit ensure_timeline_time_visible
Step-IsValid view next (Step.panned delta_x v) valid =
    Turns-IsValid v _ valid (pan-Turns v valid delta_x _ _ refl refl)
Step-IsValid view next (Step.wheeled delta {view = v} {next = w} z) valid =
    Turns-IsValid v w valid (wheel-Turns v valid delta _ _ w refl refl z)
Step-IsValid view next (Step.zoomed factor {view = v} {next = w} z) valid =
    Turns-IsValid v w valid (zoom-Turns v valid factor _ _ w refl refl z)
Step-IsValid view next (Step.fitted v) valid = Turns-IsValid v _ valid (fit-Turns v valid _ refl)
Step-IsValid view next (Step.shown ts anchor v a) valid =
    Turns-IsValid v _ valid (show-Turns v valid ts anchor _ _ a refl)
