-- ===== src/Audio.antt =====
-- ctv_web/js/player-audio.js: the one camera that may be heard. The videos are given in the order of
-- `options.videos()`; a camera is the number that `dataset.cam` spells, and speed is in
-- thousandths. The buttons, which only show the state, are left out.
pub mod Single
pub mod Stable
use cctv_timeline_viewer_cor.Base.{
  ltb, leb, ◌==◌, if◌then◌else◌, ltb→lt, lt→ltb, leb→le, ==_iff, le→leb, ltb-false, leb-false,
  ne_test, tests, Bool-cases, Option-cases, ◌>>=◌, length, get_elem?, filter, any, find,
  length-append, get_elem?-lt, get_elem?-some, ◌∈◌, get_elem?-∈, ∈-get_elem?, Extended, lte,
  lt_extended, max_extended, lte_trans, lte-total, lte_refl, lte-max_left, lte-max_right,
  minus_infinity, finite, plus_infinity, ℕ, zero, suc, ◌+◌, ◌-◌, ◌*◌, ◌/◌, ◌%◌, ◌^◌, ◌≤◌, ◌<◌, min,
  max, ◌≡◌, refl, sym, ap, ◌∙◌, ◌≢◌, ◌↔◌, ◌⊎◌, inl, inr, Bool, true, false, not, ◌&&◌, ◌||◌, Option,
  none, some, List, [], ◌∷◌, ◌++◌, map, arith,
}

-- What `options.state()` returns.
pub record Playback : Type 0 where
  pub speed : ℕ
  pub hidden : Bool
  pub day : Option ℕ
  pub playing : Bool
  pub buffering : Bool

-- A video with what its element and its card say, and its count of intentional pauses.
pub record Video : Type 0 where
  pub camera : ℕ
  pub muted : Bool
  pub hidden : Bool
  pub seeking : Bool
  pub failed_media : Bool
  pub warming : Bool
  pub sync_held : Bool
  pub card_buffering : Bool
  pub card_failed : Bool
  pub paused : Bool
  pub ended : Bool
  pub intentional_pauses : ℕ

pub record Audio : Type 0 where
  pub selected : Option ℕ
  pub day : Option ℕ
  pub videos : List Video

-- `day != null && state.day != null && day !== state.day`
abbrev pub other_day : Option ℕ → Option ℕ → Bool
other_day none b = false
other_day (some a) none = false
other_day (some a) (some b) = not (a == b)

-- `v.parentElement.dataset.cam === selected`
abbrev pub is_selected : Option ℕ → Video → Bool
is_selected none v = false
is_selected (some camera) v = v.camera == camera

abbrev pub deselects : Playback → Option ℕ → Bool
deselects state day = not (state.speed == 1000) || state.hidden || other_day day state.day

-- A camera that has no video is not selected.
abbrev pub present : Option ℕ → List Video → Option ℕ
present selected videos = if any (is_selected selected) videos then selected else none

-- What `sync` leaves selected.
unfoldable pub still_selected : Playback → Audio → Option ℕ
still_selected state audio =
    present (if deselects state audio.day then none else audio.selected) audio.videos

-- `if (state.day != null) day = state.day`
abbrev pub day_after : Option ℕ → Option ℕ → Option ℕ
day_after none day = day
day_after (some d) day = some d

-- The test that `videos.find` makes.
unfoldable pub may_sound : Playback → Option ℕ → Video → Bool
may_sound state selected v =
    is_selected selected v
    && state.speed == 1000
    && state.playing
    && not state.buffering
    && not state.hidden
    && not v.hidden
    && not v.seeking
    && not v.failed_media
    && not v.warming
    && not v.sync_held
    && not v.card_buffering
    && not v.card_failed

abbrev pub mute : Video → Video
mute v = record v { muted = true }

-- The first video that may sound is unmuted, every other one is muted.
unfoldable pub only_first : (Video → Bool) → List Video → List Video
only_first test [] = []
only_first test (v ∷ videos) =
    let others = only_first test videos in
    if test v then (record v { muted = false }) ∷ map {A = Video} mute videos else mute v ∷ others

unfoldable pub sync : Playback → Audio → Audio
sync state audio =
    let selected : Option ℕ = still_selected state audio in
    record {
      selected = selected;
      day = day_after state.day audio.day;
      videos = only_first (may_sound state selected) audio.videos;
    }

unfoldable pub reset : Playback → Audio → Audio
reset state audio = sync state (record audio { selected = none })

-- `selected === key ? null : key`
abbrev pub switched : Option ℕ → ℕ → Option ℕ
switched none camera = some camera
switched (some s) camera = if s == camera then none else some camera

unfoldable pub toggle : ℕ → Playback → Audio → Audio
toggle camera state audio =
    if not (state.speed == 1000)
    then audio
    else sync state (record audio { selected = switched audio.selected camera })

-- Whether the pause of the video was the browser's refusal, and the state after.
unfoldable pub blocked : Video → Playback → Audio → Bool × Audio
blocked video state audio =
    if not (is_selected audio.selected video) then (false, audio) else (true, reset state audio)

-- `markPause`, before a pause that the player asks for.
unfoldable pub mark_pause : Video → Video
mark_pause v =
    if not v.paused then record v { intentional_pauses = v.intentional_pauses + 1 } else v

-- The `pause` listener: the video after, whether `options.resume` is called, and the audio after.
unfoldable pub on_pause : Video → Playback → Audio → Video × Bool × Audio
on_pause v state audio =
    let refused : Bool × Audio = blocked v state audio in
    if ltb 0 v.intentional_pauses
    then (record v { intentional_pauses = v.intentional_pauses - 1 }, false, audio)
    else (if v.paused && not v.failed_media && not v.muted && not v.ended && state.playing
        then (v, refused.0, refused.1)
        else (v, false, audio))
