-- ===== src/EventPlayback/Playable.antt =====
-- `playableTime` finds the first time, from a given one on, at which a chosen camera has a clip.
use mathlib.Core.Path.{subst}
use cctv_timeline_viewer_cor.Base.{
  lte-total, ◌==◌, if◌then◌else◌, Bool-cases, any, ◌∈◌, Extended, lte, lt_extended, lte_trans,
  lte_refl, minus_infinity, finite, plus_infinity, ℕ, ◌≡◌, refl, sym, ◌∙◌, ◌⊎◌, inl, inr, true,
  false, Option, none, some, List, [], ◌∷◌, ◌++◌, arith, lte-total,
}
use cctv_timeline_viewer_cor.Recording.{Segment, CameraTrack, Timeline}
use cctv_timeline_viewer_cor.EventPlayback.{
  Search, at_once, upcoming, min_extended, plays_at, starts_later, search_segments, search_cameras,
  playable_time, first_answer,
}

-- The clips of the chosen cameras.
pub clips : List ℕ → List CameraTrack → List Segment
clips ids [] = []
clips ids (camera ∷ rest) =
    if any (λ id. id == camera.camera_id) ids
    then camera.segments ++ clips ids rest
    else clips ids rest

abbrev proceed : Extended → List Segment → Search → Search
proceed time rest at_once = at_once
proceed time rest (upcoming next) = search_segments time rest next

search-append :
    (time : Extended) (xs ys : List Segment) (next : Extended)
    → search_segments time (xs ++ ys) next ≡ proceed time ys (search_segments time xs next)
unfolding search_segments
search-append time [] ys next = refl
search-append time (x ∷ xs) ys next = elim (Bool-cases (plays_at time x)) [
  | inl now ↦ rw now
  | inr later ↦ rw later (search-append time xs ys _)
]

-- The clips of one more camera.
searched :
    (ids : List ℕ) (time : Extended) (rest : List CameraTrack) (found : Search)
    → ((next : Extended)
        → search_cameras ids time rest next ≡ search_segments time (clips ids rest) next)
    → elim found [ at_once ↦ at_once | upcoming later ↦ search_cameras ids time rest later ]
      ≡ proceed time (clips ids rest) found
searched ids time rest at_once others = refl
searched ids time rest (upcoming next) others = others next

search-clips :
    (ids : List ℕ) (time : Extended) (cameras : List CameraTrack) (next : Extended)
    → search_cameras ids time cameras next ≡ search_segments time (clips ids cameras) next
unfolding search_cameras clips search_segments
search-clips ids time [] next = refl
search-clips ids time (camera ∷ rest) next =
    elim (Bool-cases (any (λ id. id == camera.camera_id) ids)) [
      | inl shown ↦ rw shown (
          searched ids time rest _ (λ later. search-clips ids time rest later)
          ∙ sym (search-append time camera.segments (clips ids rest) next))
      | inr hidden ↦ rw hidden (search-clips ids time rest next)
    ]

-- No clip is being recorded at an instant.
abbrev Silent : List Segment → Extended → Type 0
Silent cs time = (c : Segment) → c ∈ cs → plays_at time c ≡ false

-- What the loop over the clips has found.
abbrev Found : (time : Extended) → List Segment → (next : Extended) → Search → Type 0
Found time cs next at_once = (c : Segment) × (c ∈ cs) × (plays_at time c ≡ true)
Found time cs next (upcoming r) =
    Silent cs time
    × ((r ≡ next)
        ⊎ ((c : Segment) × (c ∈ cs) × (starts_later time c ≡ true) × (r ≡ finite c.start_ts)))
    × (lte r next ≡ true)
    × ((c : Segment) → c ∈ cs → starts_later time c ≡ true → lte r (finite c.start_ts) ≡ true)

module _ (time : Extended) (c : Segment) (cs : List Segment) (next : Extended) where
  min_extended-left : (a b : Extended) → lte (min_extended a b) a ≡ true
  min_extended-left a b = elim (Bool-cases (lte a b)) [
    | inl le ↦ rw le (lte_refl a)
    | inr gt ↦ rw gt (lte-total a b gt)
  ]

  min_extended-right : (a b : Extended) → lte (min_extended a b) b ≡ true
  min_extended-right a b = elim (Bool-cases (lte a b)) [
    | inl le ↦ rw le le
    | inr gt ↦ rw gt (lte_refl b)
  ]

  min_extended-either : (a b : Extended) → (min_extended a b ≡ a) ⊎ (min_extended a b ≡ b)
  min_extended-either a b = elim (Bool-cases (lte a b)) [
    | inl le ↦ inl (rw le refl)
    | inr gt ↦ inr (rw gt refl)
  ]

  Silent-more : plays_at time c ≡ false → Silent cs time → Silent (c ∷ cs) time
  Silent-more quiet silent d (inl e) = rw e quiet
  Silent-more quiet silent d (inr m) = silent d m

  -- Where a number comes from: it stood, it is the start of this clip, or that of a later one.
  abbrev From : List Segment → Extended → Extended → Type 0
  From ds r n =
      (r ≡ n) ⊎ ((d : Segment) × (d ∈ ds) × (starts_later time d ≡ true) × (r ≡ finite d.start_ts))

  From-more : (r n : Extended) → From cs r n → From (c ∷ cs) r n
  From-more r n (inl e) = inl e
  From-more r n (inr (d, m, l, e)) = inr (d, inr m, l, e)

  From-here :
      (r : Extended)
      → starts_later time c ≡ true
      → From cs r (min_extended next (finite c.start_ts))
      → From (c ∷ cs) r next
  From-here r later (inr (d, m, l, e)) = inr (d, inr m, l, e)
  From-here r later (inl e) = elim (min_extended-either next (finite c.start_ts)) [
    | inl left ↦ inl (e ∙ left)
    | inr right ↦ inr (c, inl refl, later, e ∙ right)
  ]

  below_all :
      (r : Extended)
      → (starts_later time c ≡ true → lte r (finite c.start_ts) ≡ true)
      → ((d : Segment) → d ∈ cs → starts_later time d ≡ true → lte r (finite d.start_ts) ≡ true)
      → (d : Segment) → d ∈ (c ∷ cs)
      → starts_later time d ≡ true
      → lte r (finite d.start_ts) ≡ true
  below_all r here others d (inl e) =
      subst (λ u. starts_later time u ≡ true → lte r (finite u.start_ts) ≡ true) (sym e) here
  below_all r here others d (inr m) = others d m

  -- What the clips after one that does not play have found, with what that clip gave.
  Found-more :
      (r : Search)
      → plays_at time c ≡ false
      → Found time cs
          (if starts_later time c then min_extended next (finite c.start_ts) else next)
          r
      → Found time (c ∷ cs) next r
  Found-more at_once quiet (d, m, p) = (d, inr m, p)
  Found-more (upcoming r) quiet found = elim (Bool-cases (starts_later time c)) [
    | inl later ↦
        let (silent, from, below, others) =
          subst
            (λ b.
              Found time cs (if b then min_extended next (finite c.start_ts) else next)
                (upcoming r))
            later found in
        (
          Silent-more quiet silent,
          From-here r later from,
          lte_trans r _ next below (min_extended-left next _),
          below_all r (λ l. lte_trans r _ _ below (min_extended-right next (finite c.start_ts)))
              others,
        )
    | inr never ↦
        let (silent, from, below, others) =
          subst
            (λ b.
              Found time cs (if b then min_extended next (finite c.start_ts) else next)
                (upcoming r))
            never found in
        (
          Silent-more quiet silent,
          From-more r next from,
          below,
          below_all r (λ l. absurd (ground (arith, l, never))) others,
        )
  ]

search_segments-Found :
    (time : Extended) (cs : List Segment) (next : Extended)
    → Found time cs next (search_segments time cs next)
unfolding search_segments
search_segments-Found time [] next = (λ c m. absurd m, inl refl, lte_refl next, λ c m. absurd m)
search_segments-Found time (c ∷ cs) next = elim (Bool-cases (plays_at time c)) [
  | inl now ↦ rw now (c, inl refl, now)
  | inr quiet ↦ rw quiet (Found-more time c cs next _ quiet (search_segments-Found time cs _))
]

-- A clip that plays at an instant after `time` plays at `time`, or starts between the two.
plays_at-later :
    (time : Extended) (c : Segment) (u : ℕ)
    → lte time (finite u) ≡ true
    → plays_at (finite u) c ≡ true
    → plays_at time c ≡ false
    → starts_later time c ≡ true
plays_at-later minus_infinity c u le p q = ground arith
plays_at-later (finite time) c u le p q = ground arith
plays_at-later plus_infinity c u le p q = absurd (ground arith)

Silent-before :
    (time r : Extended) (cs : List Segment)
    → Silent cs time
    → ((c : Segment) → c ∈ cs → starts_later time c ≡ true → lte r (finite c.start_ts) ≡ true)
    → (u : ℕ) → lte time (finite u) ≡ true
    → lt_extended (finite u) r ≡ true
    → Silent cs (finite u)
Silent-before time r cs silent below u le lt c m = elim (Bool-cases (plays_at (finite u) c)) [
  | inr quiet ↦ quiet
  | inl plays ↦
      let reached = below c m (plays_at-later time c u le plays (silent c m)) in
      absurd (ground (arith, lte_trans r (finite c.start_ts) (finite u) reached (ground arith)))
]

-- The first instant from `time` on at which a clip plays.
abbrev pub IsFirst : (time : Extended) → List Segment → Option Extended → Type 0
IsFirst time cs none = (u : ℕ) → lte time (finite u) ≡ true → Silent cs (finite u)
IsFirst time cs (some t) =
    (lte time t ≡ true)
    × ((c : Segment) × (c ∈ cs) × (plays_at t c ≡ true))
    × ((u : ℕ)
        → lte time (finite u) ≡ true
        → lt_extended (finite u) t ≡ true
        → Silent cs (finite u))

starts_later-plays_at :
    (time : Extended) (c : Segment)
    → starts_later time c ≡ true
    → (lte time (finite c.start_ts) ≡ true) × (plays_at (finite c.start_ts) c ≡ true)
starts_later-plays_at time c l = ground arith

IsFirst-start :
    (time r : Extended) (cs : List Segment)
    → Found time cs plus_infinity (upcoming r)
    → IsFirst time cs (first_answer time (upcoming r))
IsFirst-start time minus_infinity cs (silent, inl e, below, others) = absurd (ground arith)
IsFirst-start time minus_infinity cs (silent, inr (c, m, l, e), below, others) =
    absurd (ground arith)
IsFirst-start time plus_infinity cs (silent, from, below, others) =
    λ u le. Silent-before time plus_infinity cs silent others u le (ground arith)
IsFirst-start time (finite t) cs (silent, inl e, below, others) = absurd (ground arith)
IsFirst-start time (finite t) cs (silent, inr (c, m, l, e), below, others) =
    let (from_time, plays) = starts_later-plays_at time c l in
    (
      rw e from_time,
      (c, m, subst (λ u. plays_at u c ≡ true) (sym e) plays),
      Silent-before time (finite t) cs silent others,
    )

IsFirst-Found :
    (time : Extended) (cs : List Segment) (r : Search)
    → Found time cs plus_infinity r
    → IsFirst time cs (first_answer time r)
IsFirst-Found time cs at_once found = (lte_refl time, found, λ u le lt. absurd (ground arith))
IsFirst-Found time cs (upcoming next) found = IsFirst-start time next cs found

-- `playableTime` returns the first instant, from the given one on, at which a clip of a chosen camera
-- plays: one does at the instant returned, none does earlier, and where it returns `null` none
-- does at all. The clips need no order.
pub playable_time-IsFirst :
    (timeline : Timeline) (ids : List ℕ) (time : Extended)
    → IsFirst time (clips ids timeline.cameras) (playable_time (some timeline) ids time)
unfolding playable_time
playable_time-IsFirst timeline ids time =
    subst (λ found. IsFirst time (clips ids timeline.cameras) (first_answer time found))
      (sym (search-clips ids time timeline.cameras plus_infinity))
      (IsFirst-Found time (clips ids timeline.cameras) _
        (search_segments-Found time (clips ids timeline.cameras) plus_infinity))
