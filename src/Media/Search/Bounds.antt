-- ===== src/Media/Search/Bounds.antt =====
-- `upperBoundStart` splits the recordings into those that start by the timestamp and the others.
use cctv_timeline_viewer_cor.Base.{
  ℕ, zero, suc, ◌+◌, ◌/◌, ◌≤◌, ◌<◌, ◌≡◌, refl, List, some, arith, leb, ltb, Bool-cases, tests, inl,
  inr, length, get_elem?, get_elem?-some, get_elem?-lt,
}
use cctv_timeline_viewer_cor.Recording.{Segment}
use cctv_timeline_viewer_cor.Media.Search.{upper_bound_loop, upper_bound_start}

-- Every recording starts no earlier than those before it.
abbrev pub IsSorted : List Segment → Type 0
IsSorted segments =
    (i j : ℕ) (s t : Segment)
    → get_elem? segments i ≡ some s
    → get_elem? segments j ≡ some t
    → i ≤ j
    → s.start_ts ≤ t.start_ts

-- `n` recordings start by the timestamp, and they are the first ones.
pub record Splits (segments : List Segment) (timestamp n : ℕ) : Type 0 where
  pub inside : n ≤ length segments
  pub started :
      (i : ℕ) (s : Segment) → get_elem? segments i ≡ some s → i < n → s.start_ts ≤ timestamp
  pub later : (i : ℕ) (s : Segment) → get_elem? segments i ≡ some s → n ≤ i → timestamp < s.start_ts

module _ (segments : List Segment) (timestamp : ℕ) (sorted : IsSorted segments) where
  pub record Inv (low high : ℕ) : Type 0 where
    pub ordered : low ≤ high
    pub inside : high ≤ length segments
    pub started :
        (i : ℕ) (s : Segment) → get_elem? segments i ≡ some s → i < low → s.start_ts ≤ timestamp
    pub later :
        (i : ℕ) (s : Segment) → get_elem? segments i ≡ some s → high ≤ i → timestamp < s.start_ts

  pub right-Inv :
      (low high middle : ℕ) (s : Segment)
      → Inv low high
      → middle < high
      → get_elem? segments middle ≡ some s
      → s.start_ts ≤ timestamp
      → Inv (middle + 1) high
  right-Inv low high middle s inv h e le = record {
    ordered = omega arith;
    inside = inv.inside;
    started = λ i t f lt. omega (arith, sorted i middle t s f e (omega arith));
    later = inv.later;
  }

  pub left-Inv :
      (low high middle : ℕ) (s : Segment)
      → Inv low high
      → low ≤ middle
      → middle < high
      → get_elem? segments middle ≡ some s
      → timestamp < s.start_ts
      → Inv low middle
  left-Inv low high middle s inv lo h e lt = record {
    ordered = lo;
    inside = omega (arith, inv.inside);
    started = inv.started;
    later = λ i t f le. omega (arith, sorted middle i s t e f le);
  }

  loop-Splits :
      (fuel low high : ℕ)
      → high < fuel + low
      → Inv low high
      → (n : ℕ) × (upper_bound_loop fuel segments timestamp low high ≡ some n)
        × Splits segments timestamp n
  unfolding upper_bound_loop
  loop-Splits zero low high h inv = absurd (omega (arith, inv.ordered))
  loop-Splits (suc fuel) low high h inv = elim (Bool-cases (ltb low high)) [
    | inl more ↦
        let (s, e) = get_elem?-some segments ((low + high) / 2) (omega (tests, inv.inside)) in
        elim (Bool-cases (leb s.start_ts timestamp)) [
          | inl le ↦
              rw (more, e, le)
                (loop-Splits fuel ((low + high) / 2 + 1) high (omega tests)
                  (right-Inv low high _ s inv (omega tests) e (omega tests)))
          | inr gt ↦
              rw (more, e, gt)
                (loop-Splits fuel low ((low + high) / 2) (omega tests)
                  (left-Inv low high _ s inv (omega tests) (omega tests) e (omega tests)))
        ]
    | inr done ↦ rw done (
      low,
      refl,
      record {
        inside = omega (arith, inv.inside, inv.ordered);
        started = inv.started;
        later = λ i s e le. inv.later i s e (omega tests);
      },
    )
  ]

  -- On sorted recordings the search ends, reads inside the array, and returns the split point.
  pub upper_bound_start-Splits :
      (n : ℕ) × (upper_bound_start segments timestamp ≡ some n) × Splits segments timestamp n
  unfolding upper_bound_start
  upper_bound_start-Splits =
      loop-Splits (suc (length segments)) 0 (length segments) (omega arith) (record {
        ordered = omega arith;
        inside = omega arith;
        started = λ i s e lt. absurd (omega arith);
        later = λ i s e le. absurd (omega (arith, get_elem?-lt segments i e));
      })
