-- ===== src/Player/Promotion.antt =====
-- The promotion of a camera by the clock: syncAutoHotspotAtCurrentTime and updateAutoHotspot, which the
-- clock calls with the time before its step. A fault of the queries is `none`.
use cctv_timeline_viewer_cor.Base.{
  if◌then◌else◌, ◌>>=◌, find, ℕ, Bool, false, not, ◌||◌, Option, none, some, List, [], ◌∷◌,
}
use cctv_timeline_viewer_cor.Recording.{Timeline}
use cctv_timeline_viewer_cor.Hotspot.{start_candidate, current_candidate}
use cctv_timeline_viewer_cor.Cameras.{
  Camera, Cameras, camera_ids, visible_cameras, hotspot_cameras, promote_hotspot_camera,
}
use cctv_timeline_viewer_cor.Player.World.{World, Ledger, find_recording_at}
use cctv_timeline_viewer_cor.Player.Ready.{same_number}
use cctv_timeline_viewer_cor.Player.Page.{is_some}

abbrev pub first_of : List ℕ → Option ℕ
first_of [] = none
first_of (id ∷ ids) = some id

-- The automatic promotion of a candidate that is not the primary camera already.
abbrev pub promote_other : Option ℕ → Option ℕ → Cameras → Cameras
promote_other primary none s = s
promote_other primary (some id) s =
    if same_number primary (some id) then s else promote_hotspot_camera id false s

abbrev pub sync_in : Cameras → Option Timeline → Option ℕ → Option Cameras
sync_in s none time = some s
sync_in s (some timeline) none = some s
sync_in s (some timeline) (some time) = do
  candidate ← current_candidate timeline.cameras (camera_ids (visible_cameras s)) (some time)
  some (promote_other (first_of s.hotspot_order) candidate s)

-- `syncAutoHotspotAtCurrentTime`
unfoldable pub sync_auto_hotspot : World → Cameras → Option Cameras
sync_auto_hotspot w s =
    if not s.auto_hotspot || not s.hotspot_layout
    then some s
    else sync_in s w.timeline w.current_time

abbrev pub records : World → Ledger → ℕ → Bool
records w l camera = is_some (find_recording_at w l camera w.current_time)

-- Without a recording of the primary camera, the first camera of the hotspot that has one.
abbrev pub fall_back : World → Ledger → Cameras → Cameras
fall_back w l s =
    let ordered : Cameras × List Camera = hotspot_cameras s in
    let primary : Option ℕ = first_of s.hotspot_order in
    if elim primary [ none ↦ false | some id ↦ records w l id ]
    then s
    else promote_other primary (find (records w l) (camera_ids ordered.1)) ordered.0

abbrev pub started_or_fall_back : World → Ledger → Option ℕ → Cameras → Cameras
started_or_fall_back w l none s = fall_back w l s
started_or_fall_back w l (some id) s = promote_other (first_of s.hotspot_order) (some id) s

abbrev pub update_in :
    World → Ledger → Option ℕ → Cameras → Option Timeline → Option ℕ → Option Cameras
update_in w l previous s none time = some s
update_in w l previous s (some timeline) none = some s
update_in w l previous s (some timeline) (some time) = do
  started ← start_candidate timeline.cameras (camera_ids (visible_cameras s)) previous (some time)
  some (started_or_fall_back w l started s)

-- `updateAutoHotspot`, with the clock of the world after the step
unfoldable pub update_auto_hotspot : World → Ledger → Option ℕ → Cameras → Option Cameras
update_auto_hotspot w l previous s =
    if not s.auto_hotspot || not s.hotspot_layout
    then some s
    else update_in w l previous s w.timeline w.current_time
