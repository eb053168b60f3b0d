-- ===== src/Hotspot.antt =====
-- ctv_web/js/hotspot.js: which camera Auto Hotspot promotes to the main place, and the order of the
-- cameras after a promotion. Camera ids and times are natural numbers; `null` bounds are `none`.
pub mod Candidates
pub mod Promoted
use cctv_timeline_viewer_cor.Base.{
  ltb, leb, ◌==◌, if◌then◌else◌, ltb→lt, lt→ltb, leb→le, ==_iff, le→leb, ltb-false, leb-false,
  ne_test, tests, Bool-cases, Option-cases, ◌>>=◌, length, get_elem?, filter, any, find,
  length-append, get_elem?-lt, get_elem?-some, ◌∈◌, get_elem?-∈, ∈-get_elem?, Extended, lte,
  lt_extended, max_extended, lte_trans, lte-total, lte_refl, lte-max_left, lte-max_right,
  minus_infinity, finite, plus_infinity, ℕ, zero, suc, ◌+◌, ◌-◌, ◌*◌, ◌/◌, ◌%◌, ◌^◌, ◌≤◌, ◌<◌, min,
  max, ◌≡◌, refl, sym, ap, ◌∙◌, ◌≢◌, ◌↔◌, ◌⊎◌, inl, inr, Bool, true, false, not, ◌&&◌, ◌||◌, Option,
  none, some, List, [], ◌∷◌, ◌++◌, map, arith,
}
use cctv_timeline_viewer_cor.Recording.{Segment, CameraTrack}
use cctv_timeline_viewer_cor.Media.Query.{latest_recording_at, last_segment_starting_between}

-- `ids.includes(id)`, and `new Set(ids).has(id)`
abbrev pub includes : List ℕ → ℕ → Bool
includes ids id = any (λ i. i == id) ids

-- The saved order without the ids that are not valid, and the valid ids that it lacks.
abbrev pub normalized_order : (order valid_ids : List ℕ) → List ℕ
normalized_order order valid_ids =
    filter (includes valid_ids) order ++ filter (λ id. not (includes order id)) valid_ids

unfoldable pub promoted_order : (order : List ℕ) (camera_id : ℕ) (valid_ids : List ℕ) → List ℕ
promoted_order order camera_id valid_ids =
    let normalized = normalized_order order valid_ids in
    if not (includes valid_ids camera_id)
    then normalized
    else (camera_id ∷ filter (λ id. not (id == camera_id)) normalized)

-- `new Map(ids.map((id, index) => [id, index])).get(id)`: a later entry replaces an earlier one.
unfoldable pub visible_order : ℕ → List ℕ → ℕ → Option ℕ
visible_order index [] id = none
visible_order index (x ∷ ids) id = elim (visible_order (suc index) ids id) [
  | some later ↦ some later
  | none ↦ if x == id then some index else none
]

pub record Candidate : Type 0 where
  camera_id : ℕ
  start : ℕ
  order : ℕ

abbrev pub replaces : Segment → ℕ → Option Candidate → Bool
replaces segment order none = true
replaces segment order (some c) =
    ltb c.start segment.start_ts || (segment.start_ts == c.start && ltb order c.order)

-- What one camera makes of the candidate, from the recording it offers.
abbrev pub offered : CameraTrack → ℕ → Option Segment → Option Candidate → Option Candidate
offered camera order none candidate = candidate
offered camera order (some segment) candidate =
    if replaces segment order candidate
    then some (record { camera_id = camera.camera_id; start = segment.start_ts; order = order })
    else candidate

-- The body of the two `forEach` callbacks, which differ in the query they call.
abbrev pub consider :
    (List Segment → Option (Option Segment))
    → List ℕ
    → CameraTrack
    → Option Candidate
    → Option (Option Candidate)
consider query ids camera candidate = elim (visible_order 0 ids camera.camera_id) [
  | none ↦ some candidate
  | some order ↦ query camera.segments >>= λ segment. some (offered camera order segment candidate)
]

unfoldable pub best_camera :
    (List Segment → Option (Option Segment))
    → List ℕ
    → List CameraTrack
    → Option Candidate
    → Option (Option Candidate)
best_camera query ids [] candidate = some candidate
best_camera query ids (camera ∷ rest) candidate =
    consider query ids camera candidate >>= λ next. best_camera query ids rest next

abbrev pub chosen : Option Candidate → Option ℕ
chosen none = none
chosen (some c) = some c.camera_id

unfoldable pub start_candidate :
    List CameraTrack → List ℕ → (from_exclusive to_inclusive : Option ℕ) → Option (Option ℕ)
start_candidate cameras ids none to = some none
start_candidate cameras ids (some from) none = some none
start_candidate cameras ids (some from) (some to) =
    let searched = do
      candidate ←
          best_camera (λ segments. last_segment_starting_between segments from to) ids cameras none
      some (chosen candidate)
    in if ltb to from then some none else searched

unfoldable pub current_candidate : List CameraTrack → List ℕ → (time : Option ℕ) → Option (Option ℕ)
current_candidate cameras ids none = some none
current_candidate cameras ids (some time) = do
  candidate ← best_camera (λ segments. latest_recording_at segments time) ids cameras none
  some (chosen candidate)
