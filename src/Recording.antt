-- ===== src/Recording.antt =====
-- The data that the server sends and every part of the client reads: recordings with their events,
-- per camera, in a timeline (the JSON of /api/timeline, as ctv_web/js reads it).
-- A JavaScript number is a natural number of thousandths: 1.5 seconds is 1500.
use Prim.Native.String.{String}
use cctv_timeline_viewer_cor.Base.{ℕ, Option, List}

pub record Event : Type 0 where
  pub kind : String
  pub timestamp : ℕ
  pub end_timestamp : Option ℕ

pub record Segment : Type 0 where
  pub id : ℕ
  pub start_ts : ℕ
  pub end_ts : Option ℕ
  pub duration : Option ℕ
  pub events : List Event

pub record CameraTrack : Type 0 where
  pub camera_id : ℕ
  pub segments : List Segment

pub record Timeline : Type 0 where
  pub from : ℕ
  pub to : ℕ
  pub cameras : List CameraTrack
