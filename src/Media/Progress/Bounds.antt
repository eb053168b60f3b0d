-- ===== src/Media/Progress/Bounds.antt =====
-- What the progress display may rely on: no more is done than there is, and nothing runs backwards.
use cctv_timeline_viewer_cor.Base.{◌==◌, ℕ, ◌≤◌, ◌≡◌, Bool, true, [], ◌∷◌, arith}
use cctv_timeline_viewer_cor.Media.Progress.{
  Report, Key, Entry, Progress, lookup, assign, key_of, previous_entry, next_entry, sum_by,
  aggregate_partition_progress,
}

-- No entry has more done than there is.
abbrev pub IsBounded : Progress → Type 0
IsBounded [] = Unit
IsBounded ((k, e) ∷ p) = (e.done ≤ e.total) × IsBounded p

assign-IsBounded :
    (k : Key) (e : Entry) (p : Progress) → e.done ≤ e.total → IsBounded p → IsBounded (assign k e p)
unfolding assign
assign-IsBounded k e [] h b = (h, tt)
assign-IsBounded k e ((j, f) ∷ p) h b = ground (arith, assign-IsBounded k e p)

pub previous-bounded :
    (p : Progress) (report : Report)
    → IsBounded p
    → (previous_entry p report).done ≤ (previous_entry p report).total
unfolding lookup
previous-bounded [] report b = omega arith
previous-bounded (((c, q), e) ∷ p) report b = ground (arith, previous-bounded p report b.1)

sum-le :
    (test : Entry → Bool) (p : Progress)
    → IsBounded p
    → sum_by test (λ e. e.done) p ≤ sum_by test (λ e. e.total) p
unfolding sum_by
sum-le test [] b = omega arith
sum-le test ((k, e) ∷ p) b = ground (arith, sum-le test p)

sum-all :
    (test : Entry → Bool) (field : Entry → ℕ) (p : Progress)
    → sum_by test field p ≤ sum_by (λ e. true) field p
unfolding sum_by
sum-all test field [] = omega arith
sum-all test field ((k, e) ∷ p) = ground (arith, sum-all test field p)

pub next-bounded :
    (previous : Entry) (report : Report) (finished : Bool)
    → previous.done ≤ previous.total
    → (report.total ≡ 0 → report.done ≡ 0)
    → ((next_entry previous report finished).done ≤ (next_entry previous report finished).total)
      × (previous.done ≤ (next_entry previous report finished).done)
      × (previous.total ≤ (next_entry previous report finished).total)
unfolding next_entry
next-bounded previous report finished b sane = ground arith

-- If a message that gives no total gives nothing done, and every entry is within its total, a report keeps every entry within its total,
-- and so the sums that it returns, over all entries and over the camera's.
pub aggregate_IsBounded :
    (p : Progress) (report : Report) (finished : Bool)
    → IsBounded p
    → (report.total ≡ 0 → report.done ≡ 0)
    → IsBounded (aggregate_partition_progress p report finished).0
      × ((aggregate_partition_progress p report finished).1.done
          ≤ (aggregate_partition_progress p report finished).1.total)
      × ((aggregate_partition_progress p report finished).1.camera_done
          ≤ (aggregate_partition_progress p report finished).1.camera_total)
      × ((aggregate_partition_progress p report finished).1.camera_total
          ≤ (aggregate_partition_progress p report finished).1.total)
unfolding aggregate_partition_progress
aggregate_IsBounded p report finished b sane =
    let entry = next_entry (previous_entry p report) report finished in
    let kept =
      next-bounded (previous_entry p report) report finished (previous-bounded p report b) sane in
    let updated = assign-IsBounded (key_of report) entry p kept.0 b in
    (
      updated,
      sum-le (λ e. true) _ updated,
      sum-le (λ e. e.camera_id == report.camera_id) _ updated,
      sum-all (λ e. e.camera_id == report.camera_id) (λ e. e.total) _,
    )
