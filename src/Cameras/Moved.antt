-- ===== src/Cameras/Moved.antt =====
-- Dropping a camera on another place moves it there and loses none.
use mathlib.Core.Path.{subst}
use mathlib.Core.Option.{some-injective}
use cctv_timeline_viewer_cor.Base.{
  ◌==◌, if◌then◌else◌, ne_test, length, get_elem?, get_elem?-some, ℕ, zero, suc, ◌+◌, ◌≤◌, ◌<◌, ◌≡◌,
  refl, sym, ap, ◌∙◌, ◌≢◌, some, List, [], ◌∷◌, arith,
}
use cctv_timeline_viewer_cor.Hotspot.Promoted.{count}
use cctv_timeline_viewer_cor.Cameras.{
  Camera, Cameras, camera_ids, remove_at, insert_at, move, on_cam_drop,
}

remove-count :
    (source : ℕ) (cameras : List Camera) (item : Camera)
    → get_elem? cameras source ≡ some item
    → (i : ℕ)
    → count (camera_ids cameras) i
      ≡ (if item.id == i then 1 else 0) + count (camera_ids (remove_at source cameras)) i
unfolding remove_at
remove-count source [] item e i = absurd (ground arith)
remove-count zero (c ∷ cameras) item e i =
    subst
      (λ (x : Camera).
        count (camera_ids (c ∷ cameras)) i
        ≡ (if x.id == i then 1 else 0) + count (camera_ids cameras) i)
      (some-injective _ _ e) refl
remove-count (suc source) (c ∷ cameras) item e i =
    omega (arith, remove-count source cameras item e i)

insert-count :
    (target : ℕ) (item : Camera) (cameras : List Camera) (i : ℕ)
    → count (camera_ids (insert_at target item cameras)) i
      ≡ (if item.id == i then 1 else 0) + count (camera_ids cameras) i
unfolding insert_at
insert-count zero item cameras i = refl
insert-count (suc target) item [] i = refl
insert-count (suc target) item (c ∷ cameras) i = omega (arith, insert-count target item cameras i)

insert-here :
    (target : ℕ) (item : Camera) (cameras : List Camera)
    → target ≤ length cameras
    → get_elem? (insert_at target item cameras) target ≡ some item
unfolding insert_at
insert-here zero item cameras le = refl
insert-here (suc target) item [] le = absurd (omega arith)
insert-here (suc target) item (c ∷ cameras) le = insert-here target item cameras (omega arith)

remove-length :
    (source : ℕ) (cameras : List Camera)
    → source < length cameras
    → length (remove_at source cameras) + 1 ≡ length cameras
unfolding remove_at
remove-length source [] lt = absurd (omega arith)
remove-length zero (c ∷ cameras) lt = omega arith
remove-length (suc source) (c ∷ cameras) lt =
    omega (arith, remove-length source cameras (omega arith))

-- A drop of one row of the list on another puts the camera at the place of the target, keeps every
-- camera as often as it was, and saves the order that is shown.
pub on_cam_drop-moves :
    (source target : ℕ) (s : Cameras)
    → source < length s.cameras
    → target < length s.cameras
    → source ≢ target
    → (get_elem? (on_cam_drop (some source) target s).cameras target ≡ get_elem? s.cameras source)
      × ((i : ℕ)
          → count (camera_ids (on_cam_drop (some source) target s).cameras) i
            ≡ count (camera_ids s.cameras) i)
      × ((on_cam_drop (some source) target s).saved_order
          ≡ camera_ids (on_cam_drop (some source) target s).cameras)
unfolding on_cam_drop
on_cam_drop-moves source target s lt room apart =
    let (item, e) = get_elem?-some s.cameras source lt in
    let moved : move source target s.cameras ≡ insert_at target item (remove_at source s.cameras) =
      rw (move, e) refl in
    rw (ne_test source target apart) (
      ap (λ cs. get_elem? cs target) moved
          ∙ insert-here target item (remove_at source s.cameras)
              (omega (arith, remove-length source s.cameras lt))
          ∙ sym e,
      λ i.
          ap (λ cs. count (camera_ids cs) i) moved
          ∙ insert-count target item (remove_at source s.cameras) i
          ∙ sym (remove-count source s.cameras item e i),
      refl,
    )
