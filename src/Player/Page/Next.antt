-- ===== src/Player/Page/Next.antt =====
-- The start to which the clock jumps where nothing is recorded: the earliest later one.
use mathlib.Core.Path.{subst}
use cctv_timeline_viewer_cor.Base.{
  ltb, ◌==◌, if◌then◌else◌, ltb→lt, lt→ltb, any, ◌∈◌, Extended, lte, lte_trans, lte-total, lte_refl,
  finite, plus_infinity, if_cases, ℕ, ◌<◌, ◌≡◌, refl, sym, ◌∙◌, ◌⊎◌, inl, inr, Bool, true, false,
  not, ◌&&◌, List, [], ◌∷◌, arith,
}
use cctv_timeline_viewer_cor.Recording.{Segment, CameraTrack}
use cctv_timeline_viewer_cor.Player.Page.{next_segment_start, next_recording_start}

abbrev step : ℕ → Segment → Extended → Extended
step time s next =
    if ltb time s.start_ts && not (lte next (finite s.start_ts)) then finite s.start_ts else next

abbrev Stepped : ℕ → Segment → Extended → Extended → Type 0
Stepped time s next r =
    (lte r next ≡ true)
    × (time < s.start_ts → lte r (finite s.start_ts) ≡ true)
    × ((r ≡ next) ⊎ ((time < s.start_ts) × (r ≡ finite s.start_ts)))

both : (a b : Bool) → (a && b) ≡ true → (a ≡ true) × (b ≡ true)
both a b e = ground (arith, e)

kept_le : (a b : Bool) → a ≡ true → (a && not b) ≡ false → b ≡ true
kept_le a b h e = ground (arith, h, e)

not_le : (b : Bool) → not b ≡ true → b ≡ false
not_le b e = ground (arith, e)

step-Stepped : (time : ℕ) (s : Segment) (next : Extended) → Stepped time s next (step time s next)
step-Stepped time s next =
    if_cases (Stepped time s next) (ltb time s.start_ts && not (lte next (finite s.start_ts)))
      (λ e.
        let (after, less) = both _ _ e in
        (
          lte-total next (finite s.start_ts) (not_le _ less),
          λ h. lte_refl (finite s.start_ts),
          inr (ltb→lt _ _ after, refl),
        ))
      (λ e. (lte_refl next, λ h. kept_le (ltb time s.start_ts) _ (lt→ltb _ _ h) e, inl refl))

-- Of the recordings of one camera, from what was found before.
abbrev Least : ℕ → List Segment → Extended → Extended → Type 0
Least time segments next r =
    (lte r next ≡ true)
    × ((s : Segment) → s ∈ segments → time < s.start_ts → lte r (finite s.start_ts) ≡ true)
    × ((r ≡ next)
        ⊎ ((s : Segment) × (s ∈ segments) × (time < s.start_ts) × (r ≡ finite s.start_ts)))

next_segment_start-Least :
    (time : ℕ) (segments : List Segment) (next : Extended)
    → Least time segments next (next_segment_start time segments next)
unfolding next_segment_start
next_segment_start-Least time [] next = (lte_refl next, λ s m. absurd m, inl refl)
next_segment_start-Least time (x ∷ segments) next =
    let (below, first, from) = step-Stepped time x next in
    let (le, least, found) = next_segment_start-Least time segments (step time x next) in
    let r : Extended = next_segment_start time segments (step time x next) in
    (
      lte_trans r (step time x next) next le below,
      λ s m h. elim m [
        | inl e ↦ lte_trans r (step time x next) (finite s.start_ts) le (
            subst (λ (u : Segment). lte (step time x next) (finite u.start_ts) ≡ true) (sym e)
              (first (subst (λ (u : Segment). time < u.start_ts) e h)))
        | inr k ↦ least s k h
      ],
      elim found [
        | inr (s, m, h, e) ↦ inr (s, inr m, h, e)
        | inl e ↦ elim from [ inl d ↦ inl (e ∙ d) | inr (h, d) ↦ inr (x, inl refl, h, e ∙ d) ]
      ],
    )

-- A displayed camera's recording that starts after a time.
abbrev pub IsLater : List ℕ → ℕ → List CameraTrack → ℕ → Type 0
IsLater displayed time cameras start =
    (c : CameraTrack) × (s : Segment) × (c ∈ cameras)
    × (any (λ i. i == c.camera_id) displayed ≡ true)
    × (s ∈ c.segments)
    × (time < s.start_ts)
    × (s.start_ts ≡ start)

abbrev LeastOf : List ℕ → ℕ → List CameraTrack → Extended → Extended → Type 0
LeastOf displayed time cameras next r =
    (lte r next ≡ true)
    × ((start : ℕ) → IsLater displayed time cameras start → lte r (finite start) ≡ true)
    × ((r ≡ next) ⊎ ((start : ℕ) × IsLater displayed time cameras start × (r ≡ finite start)))

abbrev camera_next : List ℕ → ℕ → CameraTrack → Extended → Extended
camera_next displayed time c next =
    if any (λ i. i == c.camera_id) displayed then next_segment_start time c.segments next else next

-- The same of one camera, whether displayed or not.
abbrev LeastIn : Bool → ℕ → List Segment → Extended → Extended → Type 0
LeastIn shown time segments next r =
    (lte r next ≡ true)
    × ((s : Segment)
        → shown ≡ true
        → s ∈ segments
        → time < s.start_ts
        → lte r (finite s.start_ts) ≡ true)
    × ((r ≡ next)
        ⊎ ((s : Segment) × (shown ≡ true)
            × (s ∈ segments)
            × (time < s.start_ts)
            × (r ≡ finite s.start_ts)))

camera_next-LeastIn :
    (shown : Bool) (time : ℕ) (segments : List Segment) (next : Extended)
    → LeastIn shown time segments next
        (if shown then next_segment_start time segments next else next)
camera_next-LeastIn false time segments next =
    (lte_refl next, λ s e. absurd (ground (arith, e)), inl refl)
camera_next-LeastIn true time segments next =
    let (le, least, found) = next_segment_start-Least time segments next in
    (le, λ s e. least s, elim found [ inl e ↦ inl e | inr (s, m, h, e) ↦ inr (s, refl, m, h, e) ])

first_or_rest :
    (displayed : List ℕ) (time : ℕ) (x : CameraTrack) (cameras : List CameraTrack) (start : ℕ)
    (r : Extended)
    → ((s : Segment)
        → any (λ i. i == x.camera_id) displayed ≡ true
        → s ∈ x.segments
        → time < s.start_ts
        → lte r (finite s.start_ts) ≡ true)
    → (IsLater displayed time cameras start → lte r (finite start) ≡ true)
    → IsLater displayed time (x ∷ cameras) start
    → lte r (finite start) ≡ true
first_or_rest displayed time x cameras start r first rest (c, s, inl e, d, n, h, q) =
    subst (λ t. lte r (finite t) ≡ true) q
      (first s (subst (λ (y : CameraTrack). any (λ i. i == y.camera_id) displayed ≡ true) e d)
        (subst (λ (y : CameraTrack). s ∈ y.segments) e n) h)
first_or_rest displayed time x cameras start r first rest (c, s, inr m, d, n, h, q) =
    rest (c, s, m, d, n, h, q)

next_recording_start-LeastOf :
    (displayed : List ℕ) (time : ℕ) (cameras : List CameraTrack) (next : Extended)
    → LeastOf displayed time cameras next (next_recording_start displayed time cameras next)
unfolding next_recording_start
next_recording_start-LeastOf displayed time [] next =
    (lte_refl next, λ start h. absurd h.2, inl refl)
next_recording_start-LeastOf displayed time (x ∷ cameras) next =
    let mid : Extended = camera_next displayed time x next in
    let r : Extended = next_recording_start displayed time cameras mid in
    let (below, first, from) =
      camera_next-LeastIn (any (λ i. i == x.camera_id) displayed) time x.segments next in
    let (le, least, found) = next_recording_start-LeastOf displayed time cameras mid in
    (
      lte_trans r mid next le below,
      λ start later.
          first_or_rest displayed time x cameras start r
            (λ s d m h. lte_trans r mid (finite s.start_ts) le (first s d m h)) (least start) later,
      elim found [
        | inr (start, (c, s, m, d, n, h, e), q) ↦ inr (start, (c, s, inr m, d, n, h, e), q)
        | inl q ↦ elim from [
          | inl d ↦ inl (q ∙ d)
          | inr (s, d, m, h, e) ↦ inr (s.start_ts, (x, s, inl refl, d, m, h, refl), q ∙ e)
        ]
      ],
    )

-- Among the recordings of the displayed cameras that start after a time, the start that is found is
-- the earliest, and none is found only where there is no such recording.
pub next_recording_start_lem :
    (displayed : List ℕ) (time : ℕ) (cameras : List CameraTrack)
    → let next = next_recording_start displayed time cameras plus_infinity in
      ((start : ℕ) → IsLater displayed time cameras start → lte next (finite start) ≡ true)
      × ((next ≡ plus_infinity)
          ⊎ ((start : ℕ) × IsLater displayed time cameras start × (next ≡ finite start)))
next_recording_start_lem displayed time cameras =
    let (le, least, found) = next_recording_start-LeastOf displayed time cameras plus_infinity in
    (least, found)
