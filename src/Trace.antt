-- ===== src/Trace.antt =====
-- ctv_web/js/playback-trace.js: the parts of the session recorder that compute: the totals of a session,
-- the buckets of events, and bounded lists. Wall times are milliseconds, times on the timeline and speeds
-- are thousandths.
pub mod Partition
pub mod Counts
use Prim.Native.String.{String}
use text.Mathlib.Text.{◌==◌ as str_eq}
use cctv_timeline_viewer_cor.Base.{
  ltb, leb, ◌==◌, if◌then◌else◌, ltb→lt, lt→ltb, leb→le, ==_iff, le→leb, ltb-false, leb-false,
  ne_test, tests, Bool-cases, Option-cases, ◌>>=◌, length, get_elem?, filter, any, find,
  length-append, get_elem?-lt, get_elem?-some, ◌∈◌, get_elem?-∈, ∈-get_elem?, Extended, lte,
  lt_extended, max_extended, lte_trans, lte-total, lte_refl, lte-max_left, lte-max_right,
  minus_infinity, finite, plus_infinity, if_all, if_cases, option_all, option_some, ℕ, zero, suc,
  ◌+◌, ◌-◌, ◌*◌, ◌/◌, ◌%◌, ◌^◌, ◌≤◌, ◌<◌, min, max, ◌≡◌, refl, sym, ap, ◌∙◌, ◌≢◌, ◌↔◌, ◌⊎◌, inl,
  inr, Bool, true, false, not, ◌&&◌, ◌||◌, Option, none, some, List, [], ◌∷◌, ◌++◌, map, arith,
}
use cctv_timeline_viewer_cor.Player.Video.{distance}

-- `boundedPush`
abbrev pub drop_first : {A : Type 0} → ℕ → List A → List A
drop_first zero xs = xs
drop_first (suc n) [] = []
drop_first (suc n) (x ∷ xs) = drop_first n xs

unfoldable pub bounded_push : {A : Type 0} → List A → A → ℕ → List A
bounded_push {A = A} items value limit =
    let pushed : List A = items ++ (value ∷ []) in
    if ltb limit (length pushed) then drop_first (length pushed - limit) pushed else pushed

-- `emptyTotals`
pub record Totals : Type 0 where
  pub observed_ms : ℕ
  pub playing_ms : ℕ
  pub buffering_ms : ℕ
  pub stalled_ms : ℕ
  pub timeline_time : ℕ
  pub discontinuities : ℕ
  pub unobserved_ms : ℕ

abbrev pub empty_totals : Totals
empty_totals = record {
  observed_ms = 0;
  playing_ms = 0;
  buffering_ms = 0;
  stalled_ms = 0;
  timeline_time = 0;
  discontinuities = 0;
  unobserved_ms = 0;
}

-- What a sample has for the totals. A null time counts as 0, and a speed that is not known is 0.
pub record Moment : Type 0 where
  pub wall : ℕ
  pub is_hidden : Bool
  pub is_playing : Bool
  pub is_buffering : Bool
  pub time : ℕ
  pub speed : ℕ

abbrev pub speed_or_one : ℕ → ℕ
speed_or_one speed = if speed == 0 then 1000 else speed

-- `advance < -0.01 || advance > maximum`, with both sides of the second test a thousand times as great
abbrev pub is_jump : ℕ → Moment → Moment → Bool
is_jump dt previous current =
    ltb (current.time + 10) previous.time
    || ltb (dt * max (speed_or_one previous.speed) (speed_or_one current.speed) * 2 + 500000)
        ((current.time - previous.time) * 1000)

-- The last lines of `accumulateSession`: what was played counts as a jump, a stall, or progress.
abbrev pub count_advance : Totals → ℕ → Moment → Moment → Totals
count_advance t dt previous current =
    if is_jump dt previous current
    then record t { discontinuities = t.discontinuities + 1 }
    else (if leb (distance current.time previous.time) 1
        then record t { stalled_ms = t.stalled_ms + dt }
        else (if ltb previous.time current.time
            then record t { timeline_time = t.timeline_time + (current.time - previous.time) }
            else t))

abbrev pub count_playing : Totals → ℕ → Moment → Moment → Totals
count_playing t dt previous current =
    let waited : ℕ = if previous.is_buffering || current.is_buffering then dt else 0 in
    if not previous.is_playing || not current.is_playing
    then t
    else count_advance
        (record t { playing_ms = t.playing_ms + dt; buffering_ms = t.buffering_ms + waited }) dt
        previous current

abbrev pub count_gap : Totals → Moment → Moment → Totals
count_gap t previous current =
    let dt : ℕ = current.wall - previous.wall in
    if leb current.wall previous.wall
    then t
    else (if ltb 5000 dt || previous.is_hidden || current.is_hidden
        then record t { unobserved_ms = t.unobserved_ms + dt }
        else count_playing (record t { observed_ms = t.observed_ms + dt }) dt previous current)

-- `accumulateSession`
unfoldable pub accumulate_session : Totals → Option Moment → Moment → Totals
accumulate_session t none current = t
accumulate_session t (some previous) current = count_gap t previous current

-- The samples of a page, one after the other, as `sample` gives them.
unfoldable pub accumulate_all : Totals → Option Moment → List Moment → Totals
accumulate_all t previous [] = t
accumulate_all t previous (m ∷ moments) =
    accumulate_all (accumulate_session t previous m) (some m) moments

-- An event: its time, the text of the fields that its key has after the second (type, camera, recording,
-- generation and the others, in their order), and its duration if it has a finite one.
pub record Entry : Type 0 where
  pub wall : ℕ
  pub labels : List String
  pub duration_ms : Option ℕ

pub record Durations : Type 0 where
  pub total : ℕ
  pub least : ℕ
  pub greatest : ℕ

pub record Bucket : Type 0 where
  pub first : Entry
  pub count : ℕ
  pub last_wall : ℕ
  pub durations : Option Durations

abbrev pub same_labels : List String → List String → Bool
same_labels [] [] = true
same_labels [] (y ∷ ys) = false
same_labels (x ∷ xs) [] = false
same_labels (x ∷ xs) (y ∷ ys) = str_eq x y && same_labels xs ys

-- The keys of two entries are the same.
abbrev pub same_entry : Entry → Entry → Bool
same_entry a b = a.wall / 1000 == b.wall / 1000 && same_labels a.labels b.labels

abbrev pub first_durations : Option ℕ → Option Durations
first_durations none = none
first_durations (some d) = some (record { total = d; least = d; greatest = d })

-- A duration that comes to a bucket without any makes no number of it.
abbrev pub more_durations : Option Durations → Option ℕ → Option Durations
more_durations none d = none
more_durations (some ds) none = some ds
more_durations (some ds) (some d) =
    some (record { total = ds.total + d; least = min ds.least d; greatest = max ds.greatest d })

abbrev pub new_bucket : Entry → Bucket
new_bucket e = record {
  first = e;
  count = 1;
  last_wall = e.wall;
  durations = first_durations e.duration_ms;
}

abbrev pub counted : Entry → Bucket → Bucket
counted e b = record b {
  count = b.count + 1;
  last_wall = e.wall;
  durations = more_durations b.durations e.duration_ms;
}

-- `EventBuckets.add`; the buckets stand in the order of their first events.
unfoldable pub add : Entry → List Bucket → List Bucket
add e [] = new_bucket e ∷ []
add e (b ∷ buckets) =
    let others = add e buckets in if same_entry b.first e then counted e b ∷ buckets else b ∷ others

unfoldable pub add_all : List Entry → List Bucket → List Bucket
add_all [] buckets = buckets
add_all (e ∷ entries) buckets = add_all entries (add e buckets)

-- `EventBuckets.drain`: the buckets, and those that are left.
unfoldable pub drain : List Bucket → List Bucket × List Bucket
drain buckets = (buckets, [])

-- `measuredDiagnostics`
pub record Diagnostics : Type 0 where
  pub buffering_ms : ℕ
  pub recoveries : ℕ
  pub restarts : ℕ

unfoldable pub measured_diagnostics : Option Diagnostics → Option Diagnostics → Option Diagnostics
measured_diagnostics none baseline = none
measured_diagnostics (some current) none = none
measured_diagnostics (some current) (some baseline) = some (record {
  buffering_ms = current.buffering_ms - baseline.buffering_ms;
  recoveries = current.recoveries - baseline.recoveries;
  restarts = current.restarts - baseline.restarts;
})
