-- ===== src/Hotspot/Candidates.antt =====
-- The two candidates of Auto Hotspot: the camera whose recording starts last, and the first in the
-- visible order among those.
use mathlib.Core.Path.{subst}
use mathlib.Core.Option.{some-injective}
use cctv_timeline_viewer_cor.Base.{
  ltb, Bool-cases, Option-cases, ◌∈◌, get_elem?-∈, ∈-get_elem?, ℕ, ◌≤◌, ◌<◌, ◌≡◌, refl, sym, ◌∙◌,
  ◌⊎◌, inl, inr, Bool, true, false, Option, none, some, List, [], ◌∷◌, arith,
}
use cctv_timeline_viewer_cor.Recording.{Segment, CameraTrack}
use cctv_timeline_viewer_cor.Media.Query.{
  latest_recording_at, last_segment_starting_between, is_active, starts_between,
}
use cctv_timeline_viewer_cor.Media.Query.Scan.{Latest}
use cctv_timeline_viewer_cor.Media.Query.Latest.{latest_recording_at-Latest}
use cctv_timeline_viewer_cor.Media.Query.Between.{last_segment_starting_between-Latest}
use cctv_timeline_viewer_cor.Hotspot.{
  visible_order, Candidate, replaces, offered, consider, best_camera, chosen, start_candidate,
  current_candidate,
}

nowhere : (A : Type 0) → A ⊎ ⊥ → A
nowhere A (inl a) = a
nowhere A (inr b) = absurd b

assoc : (A B C : Type 0) → (A ⊎ B) ⊎ C → A ⊎ (B ⊎ C)
assoc A B C (inl (inl a)) = inl a
assoc A B C (inl (inr b)) = inr (inl b)
assoc A B C (inr c) = inr (inr c)

assoc_back : (A B C : Type 0) → A ⊎ (B ⊎ C) → (A ⊎ B) ⊎ C
assoc_back A B C (inl a) = inl (inl a)
assoc_back A B C (inr (inl b)) = inl (inr b)
assoc_back A B C (inr (inr c)) = inr c

module _ (test : Segment → Bool) (ids : List ℕ) where
  -- A visible camera has a recording that passes the test, which starts at `start`.
  abbrev Offers : CameraTrack → (start order : ℕ) → Type 0
  Offers camera start order =
      (s : Segment) × (s ∈ camera.segments)
      × (test s ≡ true)
      × (s.start_ts ≡ start)
      × (visible_order 0 ids camera.camera_id ≡ some order)

  -- An offer that starts no later, and is not before in the visible order where it starts as late.
  abbrev Yields : Candidate → (start order : ℕ) → Type 0
  Yields c start order = (start < c.start) ⊎ ((start ≡ c.start) × (c.order ≤ order))

  -- The best offer of some cameras.
  abbrev IsBest : (CameraTrack → Type 0) → Option Candidate → Type 0
  IsBest P none = (camera : CameraTrack) (start order : ℕ) → P camera → ¬ Offers camera start order
  IsBest P (some c) =
      ((camera : CameraTrack) × P camera
        × (camera.camera_id ≡ c.camera_id)
        × Offers camera c.start c.order)
      × ((camera : CameraTrack) (start order : ℕ)
          → P camera
          → Offers camera start order
          → Yields c start order)

  IsBest-iff :
      (P Q : CameraTrack → Type 0)
      → ((x : CameraTrack) → P x → Q x)
      → ((x : CameraTrack) → Q x → P x)
      → (c : Option Candidate) → IsBest P c
      → IsBest Q c
  IsBest-iff P Q f g none best = λ camera start order q. best camera start order (g camera q)
  IsBest-iff P Q f g (some c) ((camera, p, e, offers), best) =
      ((camera, f camera p, e, offers), λ other start order q. best other start order (g other q))

  abbrev And : (CameraTrack → Type 0) → CameraTrack → CameraTrack → Type 0
  And P camera x = P x ⊎ (x ≡ camera)

  And-split :
      (P : CameraTrack → Type 0) (camera : CameraTrack) (R : ℕ → ℕ → Type 0)
      → ((x : CameraTrack) (start order : ℕ) → P x → Offers x start order → R start order)
      → ((start order : ℕ) → Offers camera start order → R start order)
      → (x : CameraTrack) (start order : ℕ) → And P camera x
      → Offers x start order
      → R start order
  And-split P camera R old new x start order (inl p) = old x start order p
  And-split P camera R old new x start order (inr e) =
      subst (λ y. Offers y start order → R start order) (sym e) (new start order)

  -- A camera that offers nothing changes nothing.
  IsBest-idle :
      (P : CameraTrack → Type 0) (camera : CameraTrack) (c : Option Candidate)
      → ((start order : ℕ) → ¬ Offers camera start order)
      → IsBest P c
      → IsBest (And P camera) c
  IsBest-idle P camera none idle best = And-split P camera (λ start order. ⊥) best idle
  IsBest-idle P camera (some c) idle ((y, p, e, offers), best) = (
    (y, inl p, e, offers),
    And-split P camera (Yields c) best (λ start order o. absurd (idle start order o)),
  )

  -- What a camera offers starts no later than its latest recording, and has its place.
  Offers-Latest :
      (camera : CameraTrack) (order : ℕ) (s : Segment)
      → visible_order 0 ids camera.camera_id ≡ some order
      → Latest test camera.segments (some s)
      → (start o : ℕ) → Offers camera start o
      → (start ≤ s.start_ts) × (o ≡ order)
  Offers-Latest camera order s visible (i, at, passes, last) start o (t, m, h, e, f) =
      let (j, g) = ∈-get_elem? camera.segments t m in
      (subst (λ n. n ≤ s.start_ts) e (last j t g h), some-injective _ _ (sym f ∙ visible))

  -- What the candidate outdid, its successor outdoes.
  outdone :
      (P : CameraTrack → Type 0) (order : ℕ) (s : Segment) (d : Option Candidate)
      → replaces s order d ≡ true
      → IsBest P d
      → (x : CameraTrack) (start o : ℕ) → P x
      → Offers x start o
      → (start < s.start_ts) ⊎ ((start ≡ s.start_ts) × (order ≤ o))
  outdone P order s none new best x start o p offers = absurd (best x start o p offers)
  outdone P order s (some d) new (own, best) x start o p offers =
      ground (arith, best x start o p offers)

  -- The recording of this camera takes the place of the candidate.
  IsBest-new :
      (P : CameraTrack → Type 0) (camera : CameraTrack) (order : ℕ) (c : Option Candidate)
      (s : Segment)
      → visible_order 0 ids camera.camera_id ≡ some order
      → Latest test camera.segments (some s)
      → replaces s order c ≡ true
      → IsBest P c
      → IsBest
          (And P camera)
          (some (record { camera_id = camera.camera_id; start = s.start_ts; order = order }))
  IsBest-new P camera order c s visible latest new best =
      let own = Offers-Latest camera order s visible latest in
      let (i, at, passes, last) = latest in
      (
        (camera, inr refl, refl, (s, get_elem?-∈ camera.segments i at, passes, refl, visible)),
        And-split P camera
            (Yields (record { camera_id = camera.camera_id; start = s.start_ts; order = order }))
            (outdone P order s c new best) (λ start o offers. ground (arith, own start o offers)),
      )

  -- The candidate stays.
  IsBest-old :
      (P : CameraTrack → Type 0) (camera : CameraTrack) (order : ℕ) (c : Option Candidate)
      (s : Segment)
      → visible_order 0 ids camera.camera_id ≡ some order
      → Latest test camera.segments (some s)
      → replaces s order c ≡ false
      → IsBest P c
      → IsBest (And P camera) c
  IsBest-old P camera order none s visible latest old best = absurd (ground arith)
  IsBest-old P camera order (some c) s visible latest old ((y, p, e, offers), best) = (
    (y, inl p, e, offers),
    And-split P camera (Yields c) best
        (λ start o own. ground (arith, Offers-Latest camera order s visible latest start o own)),
  )

  IsBest-offered :
      (P : CameraTrack → Type 0) (camera : CameraTrack) (order : ℕ) (c : Option Candidate)
      (r : Option Segment)
      → visible_order 0 ids camera.camera_id ≡ some order
      → Latest test camera.segments r
      → IsBest P c
      → IsBest (And P camera) (offered camera order r c)
  IsBest-offered P camera order c none visible latest best =
      IsBest-idle P camera c
        (λ start o (t, m, h, e, f).
          let (j, g) = ∈-get_elem? camera.segments t m in ground (arith, latest j t g, h))
        best
  IsBest-offered P camera order c (some s) visible latest best =
      elim (Bool-cases (replaces s order c)) [
        | inl new ↦ rw new (IsBest-new P camera order c s visible latest new best)
        | inr old ↦ rw old (IsBest-old P camera order c s visible latest old best)
      ]

  module _ (query : List Segment → Option (Option Segment))
      (law : (segments : List Segment)
        → (r : Option Segment) × (query segments ≡ some r) × Latest test segments r) where
    consider-IsBest :
        (P : CameraTrack → Type 0) (camera : CameraTrack) (c : Option Candidate)
        → IsBest P c
        → (r : Option Candidate) × (consider query ids camera c ≡ some r) × IsBest (And P camera) r
    consider-IsBest P camera c best = elim (Option-cases (visible_order 0 ids camera.camera_id)) [
      | inl hidden ↦
          rw (consider, hidden)
            (
              c,
              refl,
              IsBest-idle P camera c (λ start o (t, m, h, e, f). ground (arith, f, hidden)) best,
            )
      | inr (order, visible) ↦
          let (r, e, latest) = law camera.segments in
          rw (consider, visible, e) (_, refl, IsBest-offered P camera order c r visible latest best)
    ]

    best_camera-IsBest :
        (P : CameraTrack → Type 0) (cameras : List CameraTrack) (c : Option Candidate)
        → IsBest P c
        → (r : Option Candidate) × (best_camera query ids cameras c ≡ some r)
          × IsBest (λ x. P x ⊎ (x ∈ cameras)) r
    unfolding best_camera
    best_camera-IsBest P [] c best =
        (c, refl, IsBest-iff P (λ x. P x ⊎ (x ∈ [])) (λ x. inl) (λ x. nowhere (P x)) c best)
    best_camera-IsBest P (camera ∷ rest) c best =
        let (next, e, now) = consider-IsBest P camera c best in
        let (r, f, all) = best_camera-IsBest (And P camera) rest next now in
        (
          r,
          rw e f,
          IsBest-iff _ _ (λ x. assoc (P x) (x ≡ camera) (x ∈ rest))
              (λ x. assoc_back (P x) (x ≡ camera) (x ∈ rest)) r all,
        )

-- The answer of a search among the visible cameras: the id of one whose recording that passes the
-- test starts last, and which is first in the visible order among those; or no camera has one.
abbrev pub Answers : (Segment → Bool) → List ℕ → List CameraTrack → Option ℕ → Type 0
Answers test ids cameras none =
    (camera : CameraTrack) (start order : ℕ)
    → camera ∈ cameras
    → ¬ Offers test ids camera start order
Answers test ids cameras (some id) =
    (c : Candidate) × (c.camera_id ≡ id) × IsBest test ids (λ x. x ∈ cameras) (some c)

named :
    (test : Segment → Bool) (ids : List ℕ) (cameras : List CameraTrack) (r : Option Candidate)
    → IsBest test ids (λ x. x ∈ cameras) r
    → Answers test ids cameras (chosen r)
named test ids cameras none best = best
named test ids cameras (some c) best = (c, refl, best)

only : (A : Type 0) → ⊥ ⊎ A → A
only A (inl b) = absurd b
only A (inr a) = a

search-Answers :
    (test : Segment → Bool) (ids : List ℕ) (cameras : List CameraTrack)
    (query : List Segment → Option (Option Segment))
    → ((segments : List Segment)
        → (r : Option Segment) × (query segments ≡ some r) × Latest test segments r)
    → (r : Option Candidate) × (best_camera query ids cameras none ≡ some r)
      × Answers test ids cameras (chosen r)
search-Answers test ids cameras query law =
    let (r, e, best) =
      best_camera-IsBest test ids query law (λ x. ⊥) cameras none (λ x start o p. absurd p) in
    (
      r,
      e,
      named test ids cameras r (
          IsBest-iff test ids (λ x. ⊥ ⊎ (x ∈ cameras)) (λ x. x ∈ cameras) (λ x. only (x ∈ cameras))
            (λ x. inr) r best),
    )

-- The camera of the current hotspot is found without a fault: it is visible and records at `time`,
-- and no visible camera has a recording at `time` that starts later, or as late from an earlier
-- place in the visible order. No answer means that no visible camera records at `time`.
pub current_candidate-Answers :
    (cameras : List CameraTrack) (ids : List ℕ) (time : ℕ)
    → (r : Option ℕ) × (current_candidate cameras ids (some time) ≡ some r)
      × Answers (is_active time) ids cameras r
unfolding current_candidate
current_candidate-Answers cameras ids time =
    let (r, e, best) =
      search-Answers (is_active time) ids cameras (λ s. latest_recording_at s time)
        (λ s. latest_recording_at-Latest s time) in
    (chosen r, rw e refl, best)

-- The camera that a newly started recording promotes is found without a fault: one visible camera
-- has a recording that starts after `from` and by `to`, and no visible camera has one there that
-- starts later, or as late from an earlier place. No answer means that no recording of a visible
-- camera starts there, as where `to` is before `from`.
pub start_candidate-Answers :
    (cameras : List CameraTrack) (ids : List ℕ) (from to : ℕ)
    → (r : Option ℕ) × (start_candidate cameras ids (some from) (some to) ≡ some r)
      × Answers (starts_between from to) ids cameras r
unfolding start_candidate
start_candidate-Answers cameras ids from to = elim (Bool-cases (ltb to from)) [
  | inl empty ↦
      rw empty (none, refl, λ camera start order m (s, n, h, e, f). ground (arith, h, empty))
  | inr range ↦
      let (r, e, best) =
        search-Answers (starts_between from to) ids cameras
          (λ s. last_segment_starting_between s from to)
          (λ s. last_segment_starting_between-Latest s from to) in
      rw range (chosen r, rw e refl, best)
]
