-- ===== src/Media/Progress.antt =====
-- ctv_web/js/media.js: `aggregatePartitionProgress`. The object keyed by `camera:partition` is a list
-- of entries in order of insertion; the key stays a pair, which the text determines.
pub mod Sums
pub mod Bounds
pub mod Steps
use Prim.Native.String.{String}
use text.Mathlib.Text.{◌==◌ as str_eq}
use cctv_timeline_viewer_cor.Base.{
  ltb, leb, ◌==◌, if◌then◌else◌, ltb→lt, lt→ltb, leb→le, ==_iff, le→leb, ltb-false, leb-false,
  ne_test, tests, Bool-cases, Option-cases, ◌>>=◌, length, get_elem?, filter, any, find,
  length-append, get_elem?-lt, get_elem?-some, ◌∈◌, get_elem?-∈, ∈-get_elem?, Extended, lte,
  lt_extended, max_extended, lte_trans, lte_refl, lte-max_left, lte-max_right, minus_infinity,
  finite, plus_infinity, ℕ, zero, suc, ◌+◌, ◌-◌, ◌*◌, ◌/◌, ◌%◌, ◌^◌, ◌≤◌, ◌<◌, min, max, ◌≡◌, refl,
  sym, ap, ◌∙◌, ◌≢◌, ◌↔◌, ◌⊎◌, inl, inr, Bool, true, false, not, ◌&&◌, ◌||◌, Option, none, some,
  List, [], ◌∷◌, ◌++◌, map, arith,
}

-- The fields of a message; `total` and `done` are 0 where the message has none.
pub record Report : Type 0 where
  pub camera_id : ℕ
  pub partition : String
  pub total : ℕ
  pub done : ℕ

pub record Entry : Type 0 where
  pub camera_id : ℕ
  pub done : ℕ
  pub total : ℕ
  pub finished : Bool

abbrev pub Key : Type 0
Key = ℕ × String

abbrev pub Progress : Type 0
Progress = List (Key × Entry)

abbrev pub same_key : Key → Key → Bool
same_key (c, p) (d, q) = c == d && str_eq p q

unfoldable pub lookup : Key → Progress → Option Entry
lookup k [] = none
lookup k ((j, e) ∷ rest) = if same_key j k then some e else lookup k rest

-- An assignment to a key that is there keeps its place.
unfoldable pub assign : Key → Entry → Progress → Progress
assign k e [] = (k, e) ∷ []
assign k e ((j, f) ∷ rest) = if same_key j k then (j, e) ∷ rest else (j, f) ∷ assign k e rest

abbrev pub key_of : Report → Key
key_of report = (report.camera_id, report.partition)

-- `progress[key] || { camera_id, done: 0, total: 0, finished: false }`
abbrev pub previous_entry : Progress → Report → Entry
previous_entry progress report = elim (lookup (key_of report) progress) [
  | some e ↦ e
  | none ↦ record { camera_id = report.camera_id; done = 0; total = 0; finished = false }
]

-- `Math.min(reportedDone, total || Infinity)`
abbrev pub reported_done : ℕ → ℕ → ℕ
reported_done done total = if total == 0 then done else min done total

unfoldable pub next_entry : Entry → Report → Bool → Entry
next_entry previous report finished =
    let total : ℕ = max previous.total report.total in
    record {
      camera_id = report.camera_id;
      done =
          if finished && ltb 0 total
          then total
          else max previous.done (reported_done report.done total);
      total = total;
      finished = previous.finished || finished;
    }

-- `entries.reduce((sum, item) => sum + item.f, 0)` over the entries that pass the test
unfoldable pub sum_by : (Entry → Bool) → (Entry → ℕ) → Progress → ℕ
sum_by test field [] = 0
sum_by test field ((k, e) ∷ rest) =
    let others = sum_by test field rest in if test e then field e + others else others

pub record Totals : Type 0 where
  pub done : ℕ
  pub total : ℕ
  pub camera_done : ℕ
  pub camera_total : ℕ
  pub was_finished : Bool

-- The new state of the object, and what the call returns.
unfoldable pub aggregate_partition_progress : Progress → Report → Bool → Progress × Totals
aggregate_partition_progress progress report finished =
    let previous = previous_entry progress report in
    let updated = assign (key_of report) (next_entry previous report finished) progress in
    let of_camera = λ (e : Entry). e.camera_id == report.camera_id in
    (
      updated,
      record {
        done = sum_by (λ e. true) (λ e. e.done) updated;
        total = sum_by (λ e. true) (λ e. e.total) updated;
        camera_done = sum_by of_camera (λ e. e.done) updated;
        camera_total = sum_by of_camera (λ e. e.total) updated;
        was_finished = previous.finished;
      },
    )
