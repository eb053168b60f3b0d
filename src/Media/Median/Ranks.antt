-- ===== src/Media/Median/Ranks.antt =====
-- The median is the time in the middle by rank, for any order of the times.
use cctv_timeline_viewer_cor.Base.{
  leb, ◌==◌, ne_test, Bool-cases, if◌then◌else◌, length, get_elem?, get_elem?-some, ℕ, zero, suc,
  ◌+◌, ◌-◌, ◌/◌, ◌%◌, ◌≤◌, ◌<◌, ◌≡◌, refl, ap, ◌∙◌, inl, inr, Option, none, some, List, [], ◌∷◌,
  arith,
}
use cctv_timeline_viewer_cor.Media.Median.{finite_times, insert, sort, middle_of, median_time}
use cctv_timeline_viewer_cor.Media.Median.Laws.{length-sort}

-- How many times are not after a time, and how many are not before it.
abbrev pub at_most : ℕ → List ℕ → ℕ
at_most t [] = 0
at_most t (u ∷ us) = if leb u t then suc (at_most t us) else at_most t us

abbrev pub at_least : ℕ → List ℕ → ℕ
at_least t [] = 0
at_least t (u ∷ us) = if leb t u then suc (at_least t us) else at_least t us

-- A time that can stand at place `i`, from 0, of the times in order: more than `i` of them are not
-- after it, and all but `i` are not before it.
abbrev pub IsRank : List ℕ → ℕ → ℕ → Type 0
IsRank ts i t = (i < at_most t ts) × (length ts ≤ i + at_least t ts)

-- The time in the middle, or the mean of the two in the middle, rounded down.
abbrev pub IsMedian : List ℕ → ℕ → Type 0
IsMedian ts m =
    (length ts % 2 ≡ 1 → IsRank ts (length ts / 2) m)
    × (length ts % 2 ≡ 0
        → (a b : ℕ) × IsRank ts (length ts / 2 - 1) a
          × IsRank ts (length ts / 2) b
          × (m ≡ (a + b) / 2))

at_most-insert : (t u : ℕ) (us : List ℕ) → at_most t (insert u us) ≡ at_most t (u ∷ us)
unfolding insert
at_most-insert t u [] = refl
at_most-insert t u (x ∷ us) = ground (arith, at_most-insert t u us)

at_least-insert : (t u : ℕ) (us : List ℕ) → at_least t (insert u us) ≡ at_least t (u ∷ us)
unfolding insert
at_least-insert t u [] = refl
at_least-insert t u (x ∷ us) = ground (arith, at_least-insert t u us)

at_most-sort : (t : ℕ) (ts : List ℕ) → at_most t (sort ts) ≡ at_most t ts
unfolding sort
at_most-sort t [] = refl
at_most-sort t (u ∷ us) =
    at_most-insert t u (sort us) ∙ ap (λ n. if leb u t then suc n else n) (at_most-sort t us)

at_least-sort : (t : ℕ) (ts : List ℕ) → at_least t (sort ts) ≡ at_least t ts
unfolding sort
at_least-sort t [] = refl
at_least-sort t (u ∷ us) =
    at_least-insert t u (sort us) ∙ ap (λ n. if leb t u then suc n else n) (at_least-sort t us)

-- All times from one on, and times in order.
abbrev From : ℕ → List ℕ → Type 0
From lo [] = Unit
From lo (u ∷ us) = (lo ≤ u) × From lo us

abbrev IsSorted : List ℕ → Type 0
IsSorted [] = Unit
IsSorted (u ∷ us) = From u us × IsSorted us

insert-From : (lo u : ℕ) (us : List ℕ) → lo ≤ u → From lo us → From lo (insert u us)
unfolding insert
insert-From lo u [] a h = (a, tt)
insert-From lo u (x ∷ us) a h = ground (arith, insert-From lo u us)

From-below : (lo u : ℕ) (us : List ℕ) → lo ≤ u → From u us → From lo us
From-below lo u [] a h = tt
From-below lo u (x ∷ us) a h = (omega (arith, h.0), From-below lo u us a h.1)

insert-IsSorted : (u : ℕ) (us : List ℕ) → IsSorted us → IsSorted (insert u us)
unfolding insert
insert-IsSorted u [] h = (tt, tt)
insert-IsSorted u (x ∷ us) h = elim (Bool-cases (leb u x)) [
  | inl low ↦ rw low ((ground arith, From-below u x us (ground arith) h.0), h)
  | inr high ↦ rw high (insert-From x u us (ground arith) h.0, insert-IsSorted u us h.1)
]

sort-IsSorted : (ts : List ℕ) → IsSorted (sort ts)
unfolding sort
sort-IsSorted [] = tt
sort-IsSorted (t ∷ ts) = insert-IsSorted t (sort ts) (sort-IsSorted ts)

all_at_least : (u : ℕ) (us : List ℕ) → From u us → at_least u us ≡ length us
all_at_least u [] h = refl
all_at_least u (x ∷ us) h = ground (arith, h.0, all_at_least u us h.1)

get_elem?-From : (i lo : ℕ) (us : List ℕ) {t : ℕ} → From lo us → get_elem? us i ≡ some t → lo ≤ t
get_elem?-From i lo [] h e = absurd (ground arith)
get_elem?-From zero lo (u ∷ us) h e = ground arith
get_elem?-From (suc i) lo (u ∷ us) h e = get_elem?-From i lo us h.1 e

-- The time at a place of the sorted list has the rank of the place.
get_elem?-IsRank :
    (i : ℕ) (ts : List ℕ) {t : ℕ} → IsSorted ts → get_elem? ts i ≡ some t → IsRank ts i t
get_elem?-IsRank i [] h e = absurd (ground arith)
get_elem?-IsRank zero (u ∷ us) h e = ground (arith, all_at_least u us h.0)
get_elem?-IsRank (suc i) (u ∷ us) {t} h e =
    let rank = get_elem?-IsRank i us h.1 e in
    let above : u ≤ t = get_elem?-From i u us h.0 e in ground (arith, rank.0, rank.1, above)

sort-IsRank : (ts : List ℕ) (i : ℕ) {t : ℕ} → get_elem? (sort ts) i ≡ some t → IsRank ts i t
sort-IsRank ts i {t} e =
    let rank = get_elem?-IsRank i (sort ts) (sort-IsSorted ts) e in
    omega (arith, rank.0, rank.1, at_most-sort t ts, at_least-sort t ts, length-sort ts)

middle_of-IsMedian :
    (ts : List ℕ) → 0 < length ts → (m : ℕ) × (middle_of (sort ts) ≡ some m) × IsMedian ts m
unfolding middle_of
middle_of-IsMedian ts pos =
    let size = length-sort ts in
    let (b, eb) = get_elem?-some (sort ts) (length ts / 2) (omega (arith, size)) in
    let (a, ea) = get_elem?-some (sort ts) (length ts / 2 - 1) (omega (arith, size)) in
    let low = sort-IsRank ts (length ts / 2 - 1) ea in
    let high = sort-IsRank ts (length ts / 2) eb in
    elim (Bool-cases (length ts % 2 == 0)) [
      | inl even ↦
          rw (size, even, ea, eb)
            (
              (a + b) / 2,
              refl,
              (λ o. absurd (ground (arith, o, even)), λ z. (a, b, low, high, refl)),
            )
      | inr odd ↦ rw (size, odd, eb) (b, refl, (λ o. high, λ z. absurd (ground (arith, z, odd))))
    ]

-- With at least one finite time the median exists: for an odd number of times it has the rank of the
-- middle among them, and for an even number it is the mean, rounded down, of two times that have the
-- two ranks in the middle. With no finite time it is null.
pub median_time-IsMedian :
    (times : List (Option ℕ))
    → (0 < length (finite_times times)
        → (m : ℕ) × (median_time times ≡ some m) × IsMedian (finite_times times) m)
      × (finite_times times ≡ [] → median_time times ≡ none)
unfolding median_time sort finite_times
median_time-IsMedian times =
    let size = length-sort (finite_times times) in
    (
      λ pos.
          rw (ne_test (length (sort (finite_times times))) 0 (omega (arith, size)))
            (middle_of-IsMedian (finite_times times) pos),
      λ e. rw e refl,
    )
