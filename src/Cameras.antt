-- ===== src/Cameras.antt =====
-- ctv_web/js/app.js: the list of cameras, which of them are visible, and their order on the page. Ids
-- are numbers above 0, as the server gives them, so that an id is never read as false; `null`
-- is `none`. Drawing is left out.
pub mod Shown
pub mod Visible
pub mod Order
pub mod Moved
use Prim.Native.String.{String}
use cctv_timeline_viewer_cor.Base.{
  ltb, leb, ◌==◌, if◌then◌else◌, ltb→lt, lt→ltb, leb→le, ==_iff, le→leb, ltb-false, leb-false,
  ne_test, tests, Bool-cases, Option-cases, ◌>>=◌, length, get_elem?, filter, any, find,
  length-append, get_elem?-lt, get_elem?-some, ◌∈◌, get_elem?-∈, ∈-get_elem?, Extended, lte,
  lt_extended, max_extended, lte_trans, lte-total, lte_refl, lte-max_left, lte-max_right,
  minus_infinity, finite, plus_infinity, ℕ, zero, suc, ◌+◌, ◌-◌, ◌*◌, ◌/◌, ◌%◌, ◌^◌, ◌≤◌, ◌<◌, min,
  max, ◌≡◌, refl, sym, ap, ◌∙◌, ◌≢◌, ◌↔◌, ◌⊎◌, inl, inr, Bool, true, false, not, ◌&&◌, ◌||◌, Option,
  none, some, List, [], ◌∷◌, ◌++◌, map, arith,
}
use cctv_timeline_viewer_cor.Hotspot.{includes, normalized_order, promoted_order}

pub record Camera : Type 0 where
  pub id : ℕ
  pub name : String

-- The part of `S` that these functions read and write, and the saved lists of localStorage.
pub record Cameras : Type 0 where
  pub cameras : List Camera
  pub visible_ids : List ℕ
  pub hotspot_layout : Bool
  pub focus : Option ℕ
  pub hotspot_order : List ℕ
  pub hotspot_primary : Option ℕ
  pub auto_hotspot : Bool
  pub page : ℕ
  pub page_size : ℕ
  pub saved_order : List ℕ
  pub saved_visible : List ℕ

abbrev pub camera_ids : List Camera → List ℕ
camera_ids [] = []
camera_ids (c ∷ cameras) = c.id ∷ camera_ids cameras

unfoldable pub visible_cameras : Cameras → List Camera
visible_cameras s = filter (λ c. includes s.visible_ids c.id) s.cameras

-- `new Map(cameras.map(camera => [camera.id, camera])).get(id)`: the last one of an id.
unfoldable pub camera_of : List Camera → ℕ → Option Camera
camera_of [] id = none
camera_of (c ∷ cameras) id = elim (camera_of cameras id) [
  | some later ↦ some later
  | none ↦ if c.id == id then some c else none
]

-- `order.map(id => byId.get(id)).filter(Boolean)`
unfoldable pub in_order : List Camera → List ℕ → List Camera
in_order cameras [] = []
in_order cameras (id ∷ order) = elim (camera_of cameras id) [
  | some c ↦ c ∷ in_order cameras order
  | none ↦ in_order cameras order
]

unfoldable pub hotspot_cameras : Cameras → Cameras × List Camera
hotspot_cameras s =
    let order = normalized_order s.hotspot_order (camera_ids (visible_cameras s)) in
    (record s { hotspot_order = order }, in_order (visible_cameras s) order)

-- `S.focusCameraId` read as a condition
abbrev pub is_focused : Option ℕ → Bool
is_focused none = false
is_focused (some id) = true

-- Without focus in the hotspot layout; a manual promotion turns the automatic one off.
unfoldable pub promote_hotspot_camera : ℕ → Bool → Cameras → Cameras
promote_hotspot_camera id manual s =
    if not s.hotspot_layout || is_focused s.focus then s else record s {
      auto_hotspot = not manual && s.auto_hotspot;
      hotspot_order = promoted_order s.hotspot_order id (camera_ids (visible_cameras s));
      hotspot_primary = some id;
      page = 0;
    }

-- In the hotspot layout a focus turns the automatic promotion off.
unfoldable pub toggle_camera_focus : ℕ → Cameras → Cameras
toggle_camera_focus id s = record s {
  auto_hotspot = not s.hotspot_layout && s.auto_hotspot;
  focus = if elim (s.focus) [ none ↦ false | some f ↦ f == id ] then none else some id;
}

-- Whether the state changed, and the state after; the last visible camera stays.
-- The clock and the range on view, which the source clears after a change, are in Timeline.View.
unfoldable pub toggle_visible_camera : ℕ → Bool → Cameras → Bool × Cameras
toggle_visible_camera id checked s =
    let added : List ℕ =
      if not (includes s.visible_ids id) then s.visible_ids ++ (id ∷ []) else s.visible_ids in
    let removed : List ℕ = filter (λ i. not (i == id)) s.visible_ids in
    let ids : List ℕ = if checked then added else removed in
    if not checked && length s.visible_ids == 1
    then (false, s)
    else (true, record s { visible_ids = ids; saved_visible = ids })

-- `sortCamerasByOrder`: the loop over the saved order takes each camera once; `by_id` holds those left.
unfoldable pub saved_first : List Camera → List ℕ → List Camera × List Camera
saved_first by_id [] = ([], by_id)
saved_first by_id (id ∷ order) =
    let skipped = saved_first by_id order in
    let others = saved_first (filter (λ c. not (c.id == id)) by_id) order in
    elim (camera_of by_id id) [ none ↦ skipped | some c ↦ (c ∷ others.0, others.1) ]

unfoldable pub sort_cameras_by_order : List ℕ → List Camera → List Camera
sort_cameras_by_order order cameras =
    let found = saved_first cameras order in
    found.0 ++ filter (λ c. includes (camera_ids found.1) c.id) cameras

-- `loadCameras`, with the answer of the server.
unfoldable pub load_cameras : List Camera → Cameras → Cameras
load_cameras answer s =
    let cameras = sort_cameras_by_order s.saved_order answer in
    let stored = if length s.visible_ids == 0 then s.saved_visible else s.visible_ids in
    let kept = filter (includes (camera_ids cameras)) stored in
    record s {
      cameras = cameras;
      saved_order = camera_ids cameras;
      visible_ids = if length kept == 0 then camera_ids cameras else kept;
    }

-- `cameras.splice(index, 1)` leaves this, and `cameras.splice(index, 0, item)` gives that; an index
-- beyond the end counts as the end.
unfoldable pub remove_at : ℕ → List Camera → List Camera
remove_at index [] = []
remove_at zero (c ∷ cameras) = cameras
remove_at (suc index) (c ∷ cameras) = c ∷ remove_at index cameras

unfoldable pub insert_at : ℕ → Camera → List Camera → List Camera
insert_at zero item cameras = item ∷ cameras
insert_at (suc index) item [] = item ∷ []
insert_at (suc index) item (c ∷ cameras) = c ∷ insert_at index item cameras

abbrev pub move : (source target : ℕ) → List Camera → List Camera
move source target cameras = elim (get_elem? cameras source) [
  | none ↦ cameras
  | some item ↦ insert_at target item (remove_at source cameras)
]

-- `onCamDrop`, where a source of -1 is `none`. The source is the index of a row, so an item is there.
unfoldable pub on_cam_drop : Option ℕ → ℕ → Cameras → Cameras
on_cam_drop none target s = s
on_cam_drop (some source) target s = if source == target then s else record s {
  cameras = move source target s.cameras;
  saved_order = camera_ids (move source target s.cameras);
}

-- The parts of `cameras.slice(start, start + count)`.
abbrev pub drop : ℕ → List Camera → List Camera
drop n [] = []
drop zero (c ∷ cameras) = c ∷ cameras
drop (suc n) (c ∷ cameras) = drop n cameras

abbrev pub take : ℕ → List Camera → List Camera
take n [] = []
take zero (c ∷ cameras) = []
take (suc n) (c ∷ cameras) = c ∷ take n cameras

-- `displayedCameras`: the camera in focus, or those of the page.
unfoldable pub displayed_cameras : Cameras → Cameras × List Camera
displayed_cameras s =
    let all : Cameras × List Camera =
      if s.hotspot_layout then hotspot_cameras s else (s, visible_cameras s) in
    (
      all.0,
      elim (s.focus) [
        | some id ↦ filter (λ c. c.id == id) all.1
        | none ↦ take s.page_size (drop (s.page * s.page_size) all.1)
      ],
    )
