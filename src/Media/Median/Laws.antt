-- ===== src/Media/Median/Laws.antt =====
-- The median stands between the times, and does not depend on their order.
use cctv_timeline_viewer_cor.Base.{
  ◌==◌, ne_test, Bool-cases, length, get_elem?, get_elem?-some, ℕ, zero, suc, ◌+◌, ◌-◌, ◌/◌, ◌%◌,
  ◌≤◌, ◌<◌, ◌≡◌, refl, ap, ◌∙◌, inl, inr, Option, none, some, List, [], ◌∷◌, arith,
}
use cctv_timeline_viewer_cor.Media.Median.{finite_times, insert, sort, middle_of, median_time}

-- Every time of the list lies in the range.
abbrev pub Between : ℕ → ℕ → List ℕ → Type 0
Between lo hi [] = Unit
Between lo hi (t ∷ ts) = (lo ≤ t) × (t ≤ hi) × Between lo hi ts

insert-Between :
    (lo hi t : ℕ) (ts : List ℕ) → lo ≤ t → t ≤ hi → Between lo hi ts → Between lo hi (insert t ts)
unfolding insert
insert-Between lo hi t [] a b h = (a, b, tt)
insert-Between lo hi t (u ∷ us) a b h = ground (arith, insert-Between lo hi t us)

sort-Between : (lo hi : ℕ) (ts : List ℕ) → Between lo hi ts → Between lo hi (sort ts)
unfolding sort
sort-Between lo hi [] h = tt
sort-Between lo hi (t ∷ ts) h = insert-Between lo hi t (sort ts) h.0 h.1 (sort-Between lo hi ts h.2)

length-insert : (t : ℕ) (ts : List ℕ) → length (insert t ts) ≡ suc (length ts)
unfolding insert
length-insert t [] = refl
length-insert t (u ∷ us) = ground (arith, length-insert t us)

pub length-sort : (ts : List ℕ) → length (sort ts) ≡ length ts
unfolding sort
length-sort [] = refl
length-sort (t ∷ ts) = length-insert t (sort ts) ∙ ap suc (length-sort ts)

Between-get :
    (lo hi i : ℕ) (ts : List ℕ) {t : ℕ}
    → Between lo hi ts
    → get_elem? ts i ≡ some t
    → (lo ≤ t) × (t ≤ hi)
Between-get lo hi i [] h e = absurd (ground arith)
Between-get lo hi zero (u ∷ us) h e = ground arith
Between-get lo hi (suc i) (u ∷ us) h e = Between-get lo hi i us h.2 e

middle_of-bounds :
    (lo hi : ℕ) (values : List ℕ)
    → 0 < length values
    → Between lo hi values
    → (m : ℕ) × (middle_of values ≡ some m) × (lo ≤ m) × (m ≤ hi)
unfolding middle_of
middle_of-bounds lo hi values pos h =
    let (b, eb) = get_elem?-some values (length values / 2) (omega arith) in
    let (a, ea) = get_elem?-some values (length values / 2 - 1) (omega arith) in
    let pa = Between-get lo hi (length values / 2 - 1) values h ea in
    let pb = Between-get lo hi (length values / 2) values h eb in
    elim (Bool-cases (length values % 2 == 0)) [
      | inl even ↦ rw (even, ea, eb) ((a + b) / 2, refl, omega arith, omega arith)
      | inr odd ↦ rw (odd, eb) (b, refl, pb.0, pb.1)
    ]

-- With at least one finite time there is a median, and it lies in every range that holds them all;
-- with none it is null.
pub median_time_bounds :
    (times : List (Option ℕ)) (lo hi : ℕ)
    → Between lo hi (finite_times times)
    → (0 < length (finite_times times)
        → (m : ℕ) × (median_time times ≡ some m) × (lo ≤ m) × (m ≤ hi))
      × (finite_times times ≡ [] → median_time times ≡ none)
unfolding median_time sort finite_times
median_time_bounds times lo hi h =
    let size = length-sort (finite_times times) in
    (
      λ pos. rw (ne_test (length (sort (finite_times times))) 0 (omega (arith, size))) (
          middle_of-bounds lo hi (sort (finite_times times)) (omega (arith, size))
            (sort-Between lo hi _ h)),
      λ e. rw e,
    )
