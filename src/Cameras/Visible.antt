-- ===== src/Cameras/Visible.antt =====
-- At least one camera is visible, and only cameras that there are.
use cctv_timeline_viewer_cor.Base.{
  ◌==◌, if◌then◌else◌, ==_iff, Bool-cases, length, filter, length-append, ℕ, ◌<◌, ◌≡◌, sym, ap, ◌∙◌,
  inl, inr, Bool, true, false, not, List, [], ◌∷◌, ◌++◌, arith,
}
use cctv_timeline_viewer_cor.Hotspot.{includes}
use cctv_timeline_viewer_cor.Hotspot.Promoted.{
  count, IsDistinct, count-append, count-filter, includes-count,
}
use cctv_timeline_viewer_cor.Cameras.{
  Camera, Cameras, camera_ids, sort_cameras_by_order, toggle_visible_camera, load_cameras,
}
use cctv_timeline_viewer_cor.Cameras.Order.{sort_cameras_by_order-count}

-- The visible ids are different ids of cameras, and there is one.
abbrev pub HasVisible : List Camera → List ℕ → Type 0
HasVisible cameras ids =
    IsDistinct ids
    × (0 < length ids)
    × ((id : ℕ) → includes ids id ≡ true → includes (camera_ids cameras) id ≡ true)

added-count :
    (ids : List ℕ) (id : ℕ)
    → includes ids id ≡ false
    → IsDistinct ids
    → IsDistinct (ids ++ (id ∷ []))
added-count ids id new once i = elim (Bool-cases (id == i)) [
  | inl same ↦
      let absent : includes ids i ≡ false = ap (includes ids) (sym ((==_iff id i).0 same)) ∙ new in
      ground (arith, count-append ids (id ∷ []) i, includes-count ids i, absent)
  | inr other ↦ ground (arith, count-append ids (id ∷ []) i, once i, other)
]

added-HasVisible :
    (cameras : List Camera) (ids : List ℕ) (id : ℕ)
    → includes (camera_ids cameras) id ≡ true
    → includes ids id ≡ false
    → HasVisible cameras ids
    → HasVisible cameras (ids ++ (id ∷ []))
added-HasVisible cameras ids id known new (once, some_id, all_known) = (
  λ i. added-count ids id new once i,
  omega (arith, length-append ids (id ∷ [])),
  λ i h. elim (Bool-cases (id == i)) [
    | inl same ↦ ap (includes (camera_ids cameras)) (sym ((==_iff id i).0 same)) ∙ known
    | inr other ↦ all_known i (
        ground (
          arith,
          h,
          includes-count (ids ++ (id ∷ [])) i,
          count-append ids (id ∷ []) i,
          includes-count ids i,
          other,
        ))
  ],
)

-- A list of two or more different ids is not emptied by removing one.
remove-length :
    (ids : List ℕ) (id : ℕ)
    → IsDistinct ids
    → 1 < length ids
    → 0 < length (filter (λ i. not (i == id)) ids)
remove-length [] id once two = omega arith
remove-length (a ∷ []) id once two = absurd (omega arith)
remove-length (a ∷ b ∷ ids) id once two = elim (Bool-cases (a == id)) [
  | inr keep ↦ rw keep (omega arith)
  | inl same ↦
      let other : (b == id) ≡ false = ground (arith, once b) in rw (same, other) (omega arith)
]

removed-HasVisible :
    (cameras : List Camera) (ids : List ℕ) (id : ℕ)
    → (length ids == 1) ≡ false
    → HasVisible cameras ids
    → HasVisible cameras (filter (λ i. not (i == id)) ids)
removed-HasVisible cameras ids id several (once, some_id, all_known) = (
  λ i. ground (arith, count-filter (λ j. not (j == id)) ids i, once i),
  remove-length ids id once (ground (arith, several, some_id)),
  λ i h. all_known i (
      ground (
        arith,
        h,
        includes-count (filter (λ j. not (j == id)) ids) i,
        count-filter (λ j. not (j == id)) ids i,
        includes-count ids i,
      )),
)

-- Checking or unchecking a camera leaves at least one visible, all of them different and known, if
-- that was so before.
pub toggle_visible_camera-HasVisible :
    (id : ℕ) (checked : Bool) (s : Cameras)
    → includes (camera_ids s.cameras) id ≡ true
    → HasVisible s.cameras s.visible_ids
    → HasVisible
        (toggle_visible_camera id checked s).1.cameras
        (toggle_visible_camera id checked s).1.visible_ids
unfolding toggle_visible_camera
toggle_visible_camera-HasVisible id true s known has =
    elim (Bool-cases (includes s.visible_ids id)) [
      | inl shown ↦ rw shown has
      | inr hidden ↦ rw hidden (added-HasVisible s.cameras s.visible_ids id known hidden has)
    ]
toggle_visible_camera-HasVisible id false s known has =
    elim (Bool-cases (length s.visible_ids == 1)) [
      | inl last ↦ rw last has
      | inr several ↦ rw several (removed-HasVisible s.cameras s.visible_ids id several has)
    ]

count-length : (ids : List ℕ) (id : ℕ) → 0 < count ids id → 0 < length ids
count-length [] id h = absurd (omega arith)
count-length (x ∷ ids) id h = omega arith

kept-HasVisible :
    (cameras : List Camera) (stored : List ℕ)
    → IsDistinct (camera_ids cameras)
    → 0 < length (camera_ids cameras)
    → IsDistinct stored
    → HasVisible cameras (
        if length (filter (includes (camera_ids cameras)) stored) == 0
        then camera_ids cameras
        else filter (includes (camera_ids cameras)) stored)
kept-HasVisible cameras stored once some_camera stored_once =
    let kept : List ℕ = filter (includes (camera_ids cameras)) stored in
    elim (Bool-cases (length kept == 0)) [
      | inl empty ↦ rw empty (once, some_camera, λ i h. h)
      | inr full ↦ rw full (
        λ i. ground (arith, count-filter (includes (camera_ids cameras)) stored i, stored_once i),
        ground (arith, full),
        λ i h. ground (
          arith,
          h,
          includes-count kept i,
          count-filter (includes (camera_ids cameras)) stored i,
        ),
      )
    ]

sorted_length :
    (order : List ℕ) (cameras : List Camera)
    → IsDistinct (camera_ids cameras)
    → 0 < length (camera_ids cameras)
    → 0 < length (camera_ids (sort_cameras_by_order order cameras))
sorted_length order [] once some_camera = absurd (omega arith)
sorted_length order (c ∷ cameras) once some_camera =
    count-length (camera_ids (sort_cameras_by_order order (c ∷ cameras))) c.id
      (ground (arith, sort_cameras_by_order-count order (c ∷ cameras) once c.id))

either_once :
    (b : Bool) (xs ys : List ℕ) → IsDistinct xs → IsDistinct ys → IsDistinct (if b then xs else ys)
either_once true xs ys p q = p
either_once false xs ys p q = q

-- Loading the cameras, of which the server gives at least one and each with its own id, leaves at
-- least one visible, all of them different and known, whatever of the saved ids, which do not
-- repeat, is stale.
pub load_cameras-HasVisible :
    (answer : List Camera) (s : Cameras)
    → IsDistinct (camera_ids answer)
    → 0 < length (camera_ids answer)
    → IsDistinct s.visible_ids
    → IsDistinct s.saved_visible
    → HasVisible (load_cameras answer s).cameras (load_cameras answer s).visible_ids
unfolding load_cameras
load_cameras-HasVisible answer s once some_camera visible_once saved_once =
    let same = sort_cameras_by_order-count s.saved_order answer once in
    kept-HasVisible (sort_cameras_by_order s.saved_order answer)
      (if length s.visible_ids == 0 then s.saved_visible else s.visible_ids)
      (λ i. omega (arith, same i, once i)) (sorted_length s.saved_order answer once some_camera)
      (either_once (length s.visible_ids == 0) s.saved_visible s.visible_ids saved_once
        visible_once)
