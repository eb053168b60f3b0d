-- ===== src/Examples/Playback.antt =====
-- Runs and theorems of the playback engine: two cameras, three recordings.
use cctv_timeline_viewer_cor.Player.Clock.Deadline.{Decided, expire-Decided}
use cctv_timeline_viewer_cor.Player.Clock.{expire}
use cctv_timeline_viewer_cor.Base.{
  ◌∈◌, ◌⊎◌, ℕ, ◌≤◌, ◌≡◌, refl, inl, true, false, none, some, List, [], ◌∷◌, arith,
}
use cctv_timeline_viewer_cor.Recording.{Segment, Timeline}
use cctv_timeline_viewer_cor.Media.Search.{
  is_open_at, upper_bound_loop, upper_bound_start, recording_at_loop, recording_at,
}
use cctv_timeline_viewer_cor.Media.Playback.{
  playback_completed, required_playback_buffer, timeline_time_for_media,
}
use cctv_timeline_viewer_cor.Player.Video.{Video, native, mp4}
use cctv_timeline_viewer_cor.Player.World.{
  World, Ledger, time_number, find_recording_at, video_buffer_duration, absolute_video_time,
}
use cctv_timeline_viewer_cor.Player.Ready.{
  ahead_in, required_buffer, last_end, video_reached_end, video_has_playback_buffer, greatest_speed,
  playback_spread_limit,
}
use cctv_timeline_viewer_cor.Player.Source.{
  fail_video, update_player_cell, source_key, restart_progressive_video,
}
use cctv_timeline_viewer_cor.Player.Source.Failing.{Failed, fail_video_lasts}
use cctv_timeline_viewer_cor.Player.Barrier.{Player, enter_buffering_barrier}
use cctv_timeline_viewer_cor.Player.Barrier.Every.{Every}
use cctv_timeline_viewer_cor.Player.Source.Restarts.{Bounded, restart_progressive_video_bound}
use cctv_timeline_viewer_cor.Player.Barrier.Silent.{Barred, enter_buffering_barrier-Barred}
use cctv_timeline_viewer_cor.Player.Page.{new_video, stop_playback, reconcile_playback_position}
use cctv_timeline_viewer_cor.Player.Page.Forward.{Forward, reconcile_playback_position-Forward}
use cctv_timeline_viewer_cor.Player.Ended.{on_video_ended}
use cctv_timeline_viewer_cor.Player.Ended.Onward.{Onward, on_video_ended-Onward}
use cctv_timeline_viewer_cor.Player.Sync.{
  Timed, least_time, greatest_time, all_native_ready, synchronize_native_progress,
}
use cctv_timeline_viewer_cor.Player.Clock.Tick.{timed_videos, move_clock, clock_tick}
use cctv_timeline_viewer_cor.Player.Clock.Tick.Holds.{MayMove, clock_tick-stands}
use cctv_timeline_viewer_cor.Player.Clock.Tick.Advance.{move_clock_after_earliest}
use cctv_timeline_viewer_cor.Player.Controls.Stops.{
  Still, stop_playback-Still, stop_playback-released,
}
use cctv_timeline_viewer_cor.Player.Events.{retry_native_decode_error, on_error}
use cctv_timeline_viewer_cor.Player.Events.Retries.{Fails, retry_native_decode_error_once}

abbrev first_recording : Segment
first_recording = record {
  id = 7;
  start_ts = 10000;
  end_ts = some 20000;
  duration = none;
  events = [];
}

abbrev later_recording : Segment
later_recording = record {
  id = 8;
  start_ts = 30000;
  end_ts = some 40000;
  duration = none;
  events = [];
}

abbrev other_recorded : Segment
other_recorded = record {
  id = 9;
  start_ts = 12000;
  end_ts = some 22000;
  duration = none;
  events = [];
}

abbrev day : Timeline
day = record {
  from = 0;
  to = 100000;
  cameras =
      record { camera_id = 1; segments = first_recording ∷ later_recording ∷ [] }
      ∷ record { camera_id = 2; segments = other_recorded ∷ [] }
      ∷ [];
}

abbrev world : World
world = record {
  now = 500000;
  playing = true;
  current_time = some 15000;
  was_buffering = false;
  recovery_started = none;
  epoch = 0;
  speed = 1000;
  profile = "native";
  profile_fps = none;
  profile_revision = 0;
  timeline = some day;
  cameras = 1 ∷ 2 ∷ [];
  displayed = 1 ∷ 2 ∷ [];
  preload_auto = false;
  native_hls = false;
  on_timeline_tab = true;
}

abbrev ledger : Ledger
ledger = record {
  clock_start_time = some 15000;
  clock_start_wall = 490000;
  failed_recordings = [];
  decode_retries = [];
  restarts = 0;
  released = [];
  next_session = 0;
}

-- A native video that plays a recording at a media time.
abbrev playing_video : ℕ → Segment → ℕ → Video
playing_video camera rec time = record (new_video camera) {
  recording = some rec.id;
  start = rec.start_ts;
  stream_speed = 1000;
  playback_rate = 1000;
  duration = 10000;
  transport = native;
  metadata_ready = true;
  has_played = true;
  has_source = true;
  hidden = false;
  muted = false;
  paused = false;
  ready_state = 4;
  network_state = 1;
  current_time = time;
  media_duration = some 10000;
  buffered = (0, 10000) ∷ [];
  cached = some (source_key world (some rec));
}

abbrev one_video : Video
one_video = playing_video 1 first_recording 5000

abbrev two_video : Video
two_video = playing_video 2 other_recorded 3000

abbrev player : Player
player = record {
  world = world;
  ledger = ledger;
  videos = one_video ∷ two_video ∷ [];
  recoveries = 0;
  buffering_ms = 0;
  ticking = true;
}

-- One video of the two has no data.
abbrev starving : Player
starving = record player {
  videos = record one_video { ready_state = 2; buffered = (0, 5000) ∷ [] } ∷ two_video ∷ [];
}

clock_tick-stands_example :
    ((clock_tick starving).1.world.current_time ≡ some 15000) ⊎ MayMove starving
clock_tick-stands_example = clock_tick-stands starving

enter_buffering_barrier_example : Barred player (enter_buffering_barrier (some 1) player)
enter_buffering_barrier_example = enter_buffering_barrier-Barred (some 1) player refl

-- The second video is two seconds ahead.
abbrev apart : List Timed
apart = (one_video, 15000) ∷ (two_video, 17000) ∷ []

fail_video_lasts_example :
    Failed (fail_video world ledger one_video).1
    × ((later : World) (cell : Video) (rec : Segment)
        → rec.id ≡ 7
        → Failed (update_player_cell later (fail_video world ledger one_video).0 cell (some rec)).1
          × ((update_player_cell later
                (fail_video world ledger one_video).0
                cell
                (some rec)).0.next_session
              ≡ (fail_video world ledger one_video).0.next_session))
fail_video_lasts_example = fail_video_lasts world ledger one_video 7 refl

restart_progressive_video_example :
    Bounded world ledger
      (record one_video { recovery_attempts = 3 })
      (restart_progressive_video world ledger (record one_video { recovery_attempts = 3 }))
restart_progressive_video_example =
    restart_progressive_video_bound world ledger (record one_video { recovery_attempts = 3 }) 7 refl
      (omega arith)

-- Between the recordings of the cameras.
abbrev between : Player
between = record player { world = record world { current_time = some 25000 } }

reconcile_example : Forward between day 25000 (reconcile_playback_position between)
reconcile_example = reconcile_playback_position-Forward between day 25000 refl refl

on_video_ended_example : Onward player 20000 (on_video_ended player one_video 7)
on_video_ended_example =
    on_video_ended-Onward player one_video day 7 first_recording 20000 refl refl refl

stop_playback_example :
    ((stop_playback true player).world.playing ≡ false)
    × ((stop_playback true player).world.was_buffering ≡ false)
    × ((stop_playback true player).world.recovery_started ≡ none)
    × ((stop_playback true player).ticking ≡ false)
    × ((stop_playback true player).world.current_time ≡ some 15000)
    × Every Still (stop_playback true player).videos
stop_playback_example = stop_playback-Still true player

-- A video with a session.
abbrev streaming : Player
streaming = record player {
  videos = record one_video { job = some 4; transport = mp4 } ∷ two_video ∷ [];
}

stop_playback-released_example : 4 ∈ (stop_playback true streaming).ledger.released
stop_playback-released_example = stop_playback-released streaming 4 (inl refl)

move_clock_example : 15000 ≤ time_number (move_clock player).1.world.current_time
unfolding move_clock timed_videos absolute_video_time timeline_time_for_media
    synchronize_native_progress all_native_ready video_has_playback_buffer video_reached_end
    playback_completed required_buffer required_playback_buffer video_buffer_duration last_end
    ahead_in least_time greatest_time playback_spread_limit greatest_speed
move_clock_example =
    move_clock_after_earliest player (one_video, 15000) ((two_video, 15000) ∷ []) refl refl

-- A decode error of the first video.
abbrev broken : Video
broken = record one_video { error = some 3 }

retry_native_decode_error_example :
    ((retry_native_decode_error (retry_native_decode_error player broken).1 broken).0 ≡ false)
    × Fails broken 7 (on_error (retry_native_decode_error player broken).1 broken)
unfolding retry_native_decode_error find_recording_at recording_at upper_bound_start
    upper_bound_loop recording_at_loop is_open_at
retry_native_decode_error_example =
    retry_native_decode_error_once player broken broken 7 refl refl refl

-- A barrier that has waited for forty seconds.
abbrev overlong : Player
overlong = record starving {
  world = record world { was_buffering = true; recovery_started = some 460000 };
}

expire-Decided_example : Decided overlong (expire overlong)
expire-Decided_example = expire-Decided overlong refl
