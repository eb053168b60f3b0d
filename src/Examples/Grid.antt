-- ===== src/Examples/Grid.antt =====
-- Runs and theorems of the list of cameras, three of which one is hidden, and of the
-- hotspot layout.
use cctv_timeline_viewer_cor.Base.{
  get_elem?, ℕ, ◌≡◌, refl, true, false, none, some, List, [], ◌∷◌, arith,
}
use cctv_timeline_viewer_cor.Hotspot.{includes, promoted_order}
use cctv_timeline_viewer_cor.Hotspot.Promoted.{count, IsDistinct}
use cctv_timeline_viewer_cor.Cameras.{
  Camera, Cameras, camera_ids, visible_cameras, camera_of, in_order, hotspot_cameras,
  promote_hotspot_camera, toggle_visible_camera, saved_first, sort_cameras_by_order, load_cameras,
  on_cam_drop,
}
use cctv_timeline_viewer_cor.Layout.{side_grid, best_side, row_height, numbers_from, cell_position}
use cctv_timeline_viewer_cor.Layout.Room.{IsBeside, cell_position-IsBeside}
use cctv_timeline_viewer_cor.Cameras.Shown.{promote-hotspot_cameras}
use cctv_timeline_viewer_cor.Cameras.Visible.{
  HasVisible, toggle_visible_camera-HasVisible, load_cameras-HasVisible,
}
use cctv_timeline_viewer_cor.Cameras.Moved.{on_cam_drop-moves}

abbrev camera : ℕ → Camera
camera id = record { id = id; name = "" }

abbrev cameras : List Camera
cameras = camera 1 ∷ camera 2 ∷ camera 3 ∷ []

abbrev page : Cameras
page = record {
  cameras = cameras;
  visible_ids = 3 ∷ 1 ∷ [];
  hotspot_layout = true;
  focus = none;
  hotspot_order = 3 ∷ 9 ∷ [];
  hotspot_primary = none;
  auto_hotspot = true;
  page = 0;
  page_size = 4;
  saved_order = 3 ∷ 9 ∷ 3 ∷ 1 ∷ [];
  saved_visible = 3 ∷ 9 ∷ [];
}

hotspot_run : camera_ids (hotspot_cameras (promote_hotspot_camera 1 true page)).1 ≡ 1 ∷ 3 ∷ []
unfolding hotspot_cameras promote_hotspot_camera visible_cameras in_order camera_of promoted_order
hotspot_run = refl

sort_run : camera_ids (sort_cameras_by_order (3 ∷ 9 ∷ 3 ∷ 1 ∷ []) cameras) ≡ 3 ∷ 1 ∷ 2 ∷ []
unfolding sort_cameras_by_order saved_first camera_of
sort_run = refl

ids-IsDistinct : IsDistinct (camera_ids cameras)
ids-IsDistinct id = ground arith

order-IsDistinct : IsDistinct (3 ∷ 9 ∷ [])
order-IsDistinct id = ground arith

visible-IsDistinct : IsDistinct (3 ∷ 1 ∷ [])
visible-IsDistinct id = ground arith

shown : includes (camera_ids (visible_cameras page)) 1 ≡ true
unfolding visible_cameras
shown = refl

promote_example :
    (get_elem? (camera_ids (hotspot_cameras (promote_hotspot_camera 1 true page)).1) 0 ≡ some 1)
    × ((i : ℕ)
        → count (camera_ids (hotspot_cameras (promote_hotspot_camera 1 true page)).1) i
          ≡ count (camera_ids (visible_cameras page)) i)
promote_example =
    promote-hotspot_cameras page 1 true ids-IsDistinct order-IsDistinct refl refl shown

page-HasVisible : HasVisible cameras (3 ∷ 1 ∷ [])
page-HasVisible = (visible-IsDistinct, omega arith, λ id h. ground (arith, h))

toggle_example :
    HasVisible
      (toggle_visible_camera 3 false page).1.cameras
      (toggle_visible_camera 3 false page).1.visible_ids
toggle_example = toggle_visible_camera-HasVisible 3 false page refl page-HasVisible

load_example :
    HasVisible (load_cameras cameras page).cameras (load_cameras cameras page).visible_ids
load_example =
    load_cameras-HasVisible cameras page ids-IsDistinct (omega arith) visible-IsDistinct
      order-IsDistinct

drop_example :
    (get_elem? (on_cam_drop (some 0) 2 page).cameras 2 ≡ get_elem? cameras 0)
    × ((i : ℕ)
        → count (camera_ids (on_cam_drop (some 0) 2 page).cameras) i ≡ count (camera_ids cameras) i)
    × ((on_cam_drop (some 0) 2 page).saved_order ≡ camera_ids (on_cam_drop (some 0) 2 page).cameras)
drop_example = on_cam_drop-moves 0 2 page (omega arith) (omega arith) (omega arith)

-- Six side cells beside the main one in 1200 by 700 pixels at 4:3.
grid_run : side_grid false 1200 700 (record { over = 4; under = 3 }) 6 ≡ (1, 6)
unfolding side_grid best_side row_height numbers_from
grid_run = refl

cell_position_example :
    IsBeside false
      (side_grid false 1200 700 (record { over = 4; under = 3 }) 6)
      (cell_position false (side_grid false 1200 700 (record { over = 4; under = 3 }) 6).0 5)
    × ((j : ℕ)
        → cell_position false (side_grid false 1200 700 (record { over = 4; under = 3 }) 6).0 5
          ≡ cell_position false (side_grid false 1200 700 (record { over = 4; under = 3 }) 6).0 j
        → 5 ≡ j)
cell_position_example =
    cell_position-IsBeside false 1200 700 (record { over = 4; under = 3 }) 6 5 (omega arith)
