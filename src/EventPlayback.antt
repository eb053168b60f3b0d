-- ===== src/EventPlayback.antt =====
-- ctv_web/js/event-playback.js: the filter of whole clips by their events, the badges, and the next
-- time at which a camera has something to play. Times are natural numbers of thousandths; an
-- instant to search from may be `-Infinity`, hence `Extended`.
pub mod Playable
use Prim.Native.String.{String}
use text.Mathlib.Text.{◌==◌ as str_eq}
use cctv_timeline_viewer_cor.Base.{
  ltb, leb, ◌==◌, if◌then◌else◌, ltb→lt, lt→ltb, leb→le, ==_iff, le→leb, ltb-false, leb-false,
  ne_test, tests, Bool-cases, Option-cases, ◌>>=◌, length, get_elem?, filter, any, find,
  length-append, get_elem?-lt, get_elem?-some, ◌∈◌, get_elem?-∈, ∈-get_elem?, Extended, lte,
  lt_extended, max_extended, lte_trans, lte_refl, lte-max_left, lte-max_right, minus_infinity,
  finite, plus_infinity, ℕ, zero, suc, ◌+◌, ◌-◌, ◌*◌, ◌/◌, ◌%◌, ◌^◌, ◌≤◌, ◌<◌, min, max, ◌≡◌, refl,
  sym, ap, ◌∙◌, ◌≢◌, ◌↔◌, ◌⊎◌, inl, inr, Bool, true, false, not, ◌&&◌, ◌||◌, Option, none, some,
  List, [], ◌∷◌, ◌++◌, map, arith,
}
use cctv_timeline_viewer_cor.Recording.{Event, Segment, CameraTrack, Timeline}

abbrev pub kinds : List String
kinds = "person" ∷ "vehicle" ∷ "animal" ∷ "motion" ∷ "doorbell" ∷ []

unfoldable pub event_end : Event → ℕ
event_end event = elim (event.end_timestamp) [
  | none ↦ event.timestamp + 3000
  | some end ↦ if ltb event.timestamp end then end else event.timestamp + 3000
]

-- `selected.has(kind)`
abbrev pub has : List String → String → Bool
has selected kind = any (λ k. str_eq k kind) selected

abbrev pub is_selected : List String → Segment → Bool
is_selected selected segment = any (λ event. has selected event.kind) segment.events

-- An empty selection keeps every clip.
abbrev pub filter_segments : List String → List Segment → List Segment
filter_segments [] segments = segments
filter_segments (k ∷ ks) segments = filter (is_selected (k ∷ ks)) segments

unfoldable pub filter_timeline : Option Timeline → List String → Option Timeline
filter_timeline none selected = none
filter_timeline (some timeline) selected = some (record timeline {
  cameras =
      map {A = CameraTrack}
        (λ camera. record camera { segments = filter_segments selected camera.segments })
        timeline.cameras;
})

unfoldable pub active_types : List Event → ℕ → List String
unfolding event_end
active_types events timestamp =
    filter
      (λ kind.
        any
          (λ event.
            str_eq event.kind kind
            && leb event.timestamp timestamp
            && ltb timestamp (event_end event))
          events)
      kinds

-- A missing end compares as 0.
abbrev pub end_number : Segment → ℕ
end_number segment = elim (segment.end_ts) [ none ↦ 0 | some end ↦ end ]

-- The loops of `playableTime` either return the time itself, or go on with the next start so far.
pub data Search : Type 0 where
  at_once : Search
  upcoming : Extended → Search

abbrev pub min_extended : Extended → Extended → Extended
min_extended a b = if lte a b then a else b

abbrev pub plays_at : Extended → Segment → Bool
plays_at time segment =
    lte (finite segment.start_ts) time && lt_extended time (finite (end_number segment))

abbrev pub starts_later : Extended → Segment → Bool
starts_later time segment =
    ltb segment.start_ts (end_number segment) && lte time (finite segment.start_ts)

unfoldable pub search_segments : Extended → List Segment → Extended → Search
search_segments time [] next = upcoming next
search_segments time (segment ∷ rest) next =
    let later : Extended =
      if starts_later time segment then min_extended next (finite segment.start_ts) else next in
    let others = search_segments time rest later in
    if plays_at time segment then at_once else others

unfoldable pub search_cameras : List ℕ → Extended → List CameraTrack → Extended → Search
search_cameras ids time [] next = upcoming next
search_cameras ids time (camera ∷ rest) next =
    let others = λ (later : Extended). search_cameras ids time rest later in
    let skipped : Search = others next in
    let searched : Search = elim (search_segments time camera.segments next) [
      | at_once ↦ at_once
      | upcoming later ↦ others later
    ] in
    if any (λ id. id == camera.camera_id) ids then searched else skipped

-- The value returned inside the loops, or `Number.isFinite(next) ? next : null` after them.
abbrev pub first_answer : Extended → Search → Option Extended
first_answer time at_once = some time
first_answer time (upcoming (finite t)) = some (finite t)
first_answer time (upcoming minus_infinity) = none
first_answer time (upcoming plus_infinity) = none

-- `timeline?.cameras || []`
unfoldable pub playable_time : Option Timeline → List ℕ → Extended → Option Extended
playable_time none ids time = none
playable_time (some timeline) ids time =
    first_answer time (search_cameras ids time timeline.cameras plus_infinity)
