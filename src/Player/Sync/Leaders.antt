-- ===== src/Player/Sync/Leaders.antt =====
-- Leaders wait, but never all of the videos: the earliest one goes on.
use cctv_timeline_viewer_cor.Base.{length, ◌∈◌, ℕ, ◌+◌, ◌/◌, ◌<◌, ◌≡◌, Bool, true, false, List}
use cctv_timeline_viewer_cor.Player.Video.{Video}
use cctv_timeline_viewer_cor.Player.World.{World}
use cctv_timeline_viewer_cor.Player.Barrier.Every.{Every}
use cctv_timeline_viewer_cor.Player.Sync.{Timed, least_time}

-- Lists with the same first time, and as long as each other.
abbrev SameTimes : List Timed → Bool × List Timed → Type 0
SameTimes timed r = (least_time r.1 ≡ least_time timed) × (length r.1 ≡ length timed)

-- A video that is held after the step is ahead of the earliest time by more than a quarter of the limit.
abbrev pub Ahead : ℕ → ℕ → Timed → Type 0
Ahead earliest limit x = x.0.sync_held ≡ true → earliest + limit / 4 < x.1

-- What the step promises when it says that videos wait.
abbrev Led : ℕ → ℕ → Bool × List Timed → Type 0
Led first limit r =
    r.0 ≡ true → ((x : Timed) × (x ∈ r.1) × (x.0.sync_held ≡ false)) × Every (Ahead first limit) r.1
