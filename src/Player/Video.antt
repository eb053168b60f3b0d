-- ===== src/Player/Video.antt =====
-- A video of the page: its element, the data of its cell, and what player.js keeps on the element.
-- Times of media and of the timeline are thousandths of a second, wall times are milliseconds, and
-- speeds and rates are thousandths. The numbers of the cell mean something only where it has a
-- recording: the source sets and clears them together.
use Prim.Native.String.{String}
use cctv_timeline_viewer_cor.Base.{
  ◌==◌, ℕ, suc, ◌+◌, ◌-◌, Bool, true, false, not, ◌&&◌, Option, none, some, List,
}

pub data Transport : Type 0 where
  no_transport : Transport
  native : Transport
  mp4 : Transport
  hls : Transport

abbrev pub is_native : Transport → Bool
is_native native = true
is_native no_transport = false
is_native mp4 = false
is_native hls = false

abbrev pub is_mp4 : Transport → Bool
is_mp4 mp4 = true
is_mp4 no_transport = false
is_mp4 native = false
is_mp4 hls = false

abbrev pub is_hls : Transport → Bool
is_hls hls = true
is_hls no_transport = false
is_hls native = false
is_hls mp4 = false

-- The keys that the source writes as text, `${a}:${b}:${c}`.
abbrev pub Key : Type 0
Key = ℕ × ℕ × ℕ

abbrev pub same_key : Key → Key → Bool
same_key (a, b, c) (d, e, f) = a == d && b == e && c == f

-- `_endProgress` and `_playbackProgress`: where the media stood, and since when.
pub record EndProgress : Type 0 where
  pub key : Key
  pub time : ℕ
  pub duration : Option ℕ
  pub buffered_end : Option ℕ
  pub since : ℕ

pub record Progress : Type 0 where
  pub key : Key
  pub time : ℕ
  pub since : ℕ

-- `_nativeDelivery`
pub record Delivery : Type 0 where
  pub key : Key
  pub end : ℕ
  pub advanced : Option ℕ

-- `_nativeStartProgress`
pub record StartProgress : Type 0 where
  pub key : Key
  pub time : ℕ
  pub confirmed : Bool

pub data Mode : Type 0 where
  hold : Mode
  prime : Mode
  flow : Mode

abbrev pub is_hold : Mode → Bool
is_hold hold = true
is_hold prime = false
is_hold flow = false

abbrev pub is_prime : Mode → Bool
is_prime prime = true
is_prime hold = false
is_prime flow = false

abbrev pub is_flow : Mode → Bool
is_flow flow = true
is_flow hold = false
is_flow prime = false

-- `_nativeBufferPreparation`
pub record Preparation : Type 0 where
  pub key : Key
  pub ahead : ℕ
  pub changed : ℕ
  pub mode : Mode
  pub prime_time : ℕ
  pub primed_ahead : Option ℕ

-- What `playerSourceKey` puts together: the recording, the profile, the speed of the stream, and the
-- revision of the profiles. Without a recording it is empty.
pub record SourceKey : Type 0 where
  pub recording : Option ℕ
  pub profile : String
  pub stream_speed : ℕ
  pub revision : ℕ

pub record Video : Type 0 where
  pub camera : ℕ
  pub recording : Option ℕ
  pub start : ℕ
  pub stream_offset : ℕ
  pub stream_speed : ℕ
  pub playback_rate : ℕ
  pub duration : ℕ
  pub transport : Transport
  pub transitioning : Option ℕ
  pub buffering : Bool
  pub failed : Bool
  pub cancelled : Bool
  pub job : Option ℕ
  pub metadata_ready : Bool
  pub has_played : Bool
  pub drift_seek : Bool
  pub warming : Bool
  pub sync_held : Bool
  pub recovery_attempts : ℕ
  pub generation : ℕ
  pub play_attempt : ℕ
  -- the element
  pub has_source : Bool
  pub preload_auto : Bool
  pub hidden : Bool
  pub muted : Bool
  pub paused : Bool
  pub seeking : Bool
  pub ended : Bool
  pub error : Option ℕ
  pub ready_state : ℕ
  pub network_state : ℕ
  pub rate : ℕ
  pub current_time : ℕ
  pub media_duration : Option ℕ
  pub buffered : List (ℕ × ℕ)
  -- what the source remembers of it
  pub end_progress : Option EndProgress
  pub playback_progress : Option Progress
  pub delivery : Option Delivery
  pub load_progress : Option (ℕ × ℕ)
  pub start_progress : Option StartProgress
  pub preparation : Option Preparation
  pub recovery_seek : Option (ℕ × ℕ)
  pub recovery_reload : Option Key
  pub prefetch_seek : Option (Key × ℕ)
  -- the entry of `_playerCache` for the camera
  pub cached : Option SourceKey

-- `HTMLMediaElement.HAVE_METADATA`, `HAVE_CURRENT_DATA` and `HAVE_FUTURE_DATA`
abbrev pub have_metadata : ℕ
have_metadata = 1

abbrev pub have_current_data : ℕ
have_current_data = 2

abbrev pub have_future_data : ℕ
have_future_data = 3

abbrev pub has_recording : Video → Bool
has_recording v = elim (v.recording) [ none ↦ false | some r ↦ true ]

-- `activeVideos`
abbrev pub is_active : Video → Bool
is_active v = not v.hidden && has_recording v && not v.failed

-- The number of the recording, in a key.
abbrev pub recording_number : Video → ℕ
recording_number v = elim (v.recording) [ none ↦ 0 | some r ↦ suc r ]

-- `Math.abs(a - b)`
abbrev pub distance : ℕ → ℕ → ℕ
distance a b = (a - b) + (b - a)
