-- ===== src/Media/Progress/Steps.antt =====
-- How one report moves the progress: forward, and in its own entry alone.
use cctv_timeline_viewer_cor.Base.{
  Option-cases, ℕ, ◌≤◌, ◌≡◌, refl, sym, inl, inr, Bool, true, false, ◌||◌, arith,
}
use cctv_timeline_viewer_cor.Media.Progress.{
  Report, Key, Entry, Progress, same_key, lookup, assign, key_of, previous_entry, next_entry,
  sum_by, aggregate_partition_progress,
}
use cctv_timeline_viewer_cor.Media.Progress.Sums.{
  lookup-assign_self, lookup-assign_ne, share, sum-assign,
}
use cctv_timeline_viewer_cor.Media.Progress.Bounds.{IsBounded, previous-bounded, next-bounded}

-- What an entry counts for before the report: nothing, where the key is new.
share-previous :
    (field : Entry → ℕ) (p : Progress) (report : Report)
    → (field (record { camera_id = report.camera_id; done = 0; total = 0; finished = false }) ≡ 0)
    → share (λ e. true) field (lookup (key_of report) p) ≡ field (previous_entry p report)
share-previous field p report zero_new = elim (Option-cases (lookup (key_of report) p)) [
  | inl e ↦ rw (e, previous_entry) (sym zero_new)
  | inr (f, e) ↦ rw (e, previous_entry)
]

-- Where no entry has more done than its total, and a message that gives no total gives nothing
-- done, the done and total counts that a report returns are not below those of the entries before it.
pub aggregate_grows :
    (p : Progress) (report : Report) (finished : Bool)
    → IsBounded p
    → (report.total ≡ 0 → report.done ≡ 0)
    → (sum_by (λ e. true) (λ e. e.done) p ≤ (aggregate_partition_progress p report finished).1.done)
      × (sum_by (λ e. true) (λ e. e.total) p
          ≤ (aggregate_partition_progress p report finished).1.total)
unfolding aggregate_partition_progress
aggregate_grows p report finished b sane =
    let previous = previous_entry p report in
    let entry = next_entry previous report finished in
    let kept = next-bounded previous report finished (previous-bounded p report b) sane in
    (
      omega (
        arith,
        kept.1,
        sum-assign (λ e. true) (λ e. e.done) (key_of report) entry p,
        share-previous (λ e. e.done) p report refl,
      ),
      omega (
        arith,
        kept.2,
        sum-assign (λ e. true) (λ e. e.total) (key_of report) entry p,
        share-previous (λ e. e.total) p report refl,
      ),
    )

own :
    (p : Progress) (report : Report) (finished : Bool)
    → (previous_entry
        (assign (key_of report) (next_entry (previous_entry p report) report finished) p)
        report).finished
      ≡ ((previous_entry p report).finished || finished)
unfolding next_entry
own p report finished = rw (
  lookup-assign_self (key_of report) (next_entry (previous_entry p report) report finished) p,
  previous_entry,
)

-- A report leaves the entries of other keys as they are. Its own entry is finished from then on if
-- the report says so or an earlier one did, and the call says whether an earlier one did: so a
-- partition counts as newly finished once.
pub aggregate_finished :
    (p : Progress) (report : Report) (finished : Bool)
    → ((j : Key)
        → same_key (key_of report) j ≡ false
        → lookup j (aggregate_partition_progress p report finished).0 ≡ lookup j p)
      × ((previous_entry (aggregate_partition_progress p report finished).0 report).finished
          ≡ ((aggregate_partition_progress p report finished).1.was_finished || finished))
      × ((aggregate_partition_progress p report finished).1.was_finished
          ≡ (previous_entry p report).finished)
unfolding aggregate_partition_progress next_entry
aggregate_finished p report finished =
    (λ j h. lookup-assign_ne (key_of report) j _ p h, own p report finished, refl)
