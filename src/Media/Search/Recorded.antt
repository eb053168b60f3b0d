-- ===== src/Media/Search/Recorded.antt =====
-- `recordingAt` looks at the last recording that started, and at no other.
use cctv_timeline_viewer_cor.Base.{
  ℕ, zero, suc, ◌+◌, ◌-◌, ◌/◌, ◌≤◌, ◌<◌, ◌≡◌, refl, sym, ap, ◌∙◌, true, false, List, Option, none,
  some, arith, leb, ltb, Bool-cases, tests, inl, inr, length, get_elem?, get_elem?-some,
  get_elem?-lt,
}
use mathlib.Core.Option.{some-injective}
use cctv_timeline_viewer_cor.Recording.{Segment}
use cctv_timeline_viewer_cor.Media.Search.{recording_at_loop, recording_at, is_open_at}
use cctv_timeline_viewer_cor.Media.Search.Bounds.{IsSorted, Inv, right-Inv, left-Inv}

-- The recording at index `i` is the last one that started by the timestamp.
pub record IsLastStarted (segments : List Segment) (timestamp i : ℕ) (s : Segment) : Type 0 where
  pub at : get_elem? segments i ≡ some s
  pub started : s.start_ts ≤ timestamp
  pub later : (j : ℕ) (t : Segment) → get_elem? segments j ≡ some t → i < j → timestamp < t.start_ts

-- What `recordingAt` promises: the last recording that started, if it has not ended.
abbrev pub RecordedAt : List Segment → ℕ → Option Segment → Type 0
RecordedAt segments timestamp (some s) =
    (i : ℕ) × IsLastStarted segments timestamp i s × (is_open_at timestamp s ≡ true)
RecordedAt segments timestamp none =
    (i : ℕ) (s : Segment) → IsLastStarted segments timestamp i s → is_open_at timestamp s ≡ false

IsLastStarted-unique :
    (segments : List Segment) (timestamp : ℕ) {i j : ℕ} {s t : Segment}
    → IsLastStarted segments timestamp i s
    → IsLastStarted segments timestamp j t
    → s ≡ t
IsLastStarted-unique segments timestamp {i} {j} {s} {t} l m =
    let e : i ≡ j = grind (arith, l.later j t m.at, m.later i s l.at, l.started, m.started) in
    some-injective _ _ (sym l.at ∙ ap (get_elem? segments) e ∙ m.at)

module _ (segments : List Segment) (timestamp : ℕ) (sorted : IsSorted segments) where
  abbrev Candidate : ℕ → Option Segment → Type 0
  Candidate low none = low ≡ 0
  Candidate low (some s) = (i : ℕ) × (low ≡ suc i) × (get_elem? segments i ≡ some s)

  abbrev LastStarted : Option Segment → Type 0
  LastStarted none = (i : ℕ) (s : Segment) → ¬ IsLastStarted segments timestamp i s
  LastStarted (some s) = (i : ℕ) × IsLastStarted segments timestamp i s

  stop-LastStarted :
      (low high : ℕ) (c : Option Segment)
      → Inv segments timestamp sorted low high
      → high ≤ low
      → Candidate low c
      → LastStarted c
  stop-LastStarted low high none inv h c =
      λ i s last. absurd (omega (arith, inv.later i s last.at (omega arith), last.started))
  stop-LastStarted low high (some s) inv h (i, e, at) = (
    i,
    record {
      at = at;
      started = inv.started i s at (omega arith);
      later = λ j t f lt. inv.later j t f (omega arith);
    },
  )

  loop-LastStarted :
      (fuel low high : ℕ) (c : Option Segment)
      → high < fuel + low
      → Inv segments timestamp sorted low high
      → Candidate low c
      → (r : Option Segment) × (recording_at_loop fuel segments timestamp low high c ≡ some r)
        × LastStarted r
  unfolding recording_at_loop
  loop-LastStarted zero low high c h inv is = absurd (omega (arith, inv.ordered))
  loop-LastStarted (suc fuel) low high c h inv is = elim (Bool-cases (ltb low high)) [
    | inl more ↦
        let (s, e) = get_elem?-some segments ((low + (high - 1)) / 2) (omega (tests, inv.inside)) in
        elim (Bool-cases (leb s.start_ts timestamp)) [
          | inl le ↦
              rw (more, e, le)
                (loop-LastStarted fuel ((low + (high - 1)) / 2 + 1) high (some s) (omega tests)
                  (right-Inv segments timestamp sorted low high _ s inv (omega tests) e
                    (omega tests))
                  (_, omega arith, e))
          | inr gt ↦
              rw (more, e, gt)
                (loop-LastStarted fuel low ((low + (high - 1)) / 2) c (omega tests)
                  (left-Inv segments timestamp sorted low high _ s inv (omega tests) (omega tests) e
                    (omega tests))
                  is)
        ]
    | inr done ↦ rw done (c, refl, stop-LastStarted low high c inv (omega tests) is)
  ]

  open_or_not :
      (c : Option Segment)
      → LastStarted c
      → recording_at_loop (suc (length segments)) segments timestamp 0 (length segments) none
        ≡ some c
      → (r : Option Segment) × (recording_at segments timestamp ≡ some r)
        × RecordedAt segments timestamp r
  unfolding recording_at
  open_or_not none last e = rw e (none, refl, λ i s l. absurd (last i s l))
  open_or_not (some s) (i, last) e = elim (Bool-cases (is_open_at timestamp s)) [
    | inl open_now ↦ rw (e, open_now) (some s, refl, (i, last, open_now))
    | inr ended ↦
        rw (e, ended)
          (none, refl, λ j t l. rw (IsLastStarted-unique segments timestamp l last) ended)
  ]

  -- For recordings in order of their starts, `recordingAt` never faults: it returns the last one
  -- that has started, if that is still open, and nothing where it has ended or none has started.
  pub recording_at-RecordedAt :
      (r : Option Segment) × (recording_at segments timestamp ≡ some r)
      × RecordedAt segments timestamp r
  recording_at-RecordedAt =
      let (c, e, last) =
        loop-LastStarted (suc (length segments)) 0 (length segments) none (omega arith)
          (record {
            ordered = omega arith;
            inside = omega arith;
            started = λ i s e lt. absurd (omega arith);
            later = λ i s e le. absurd (omega (arith, get_elem?-lt segments i e));
          })
          refl in
      open_or_not c last e
