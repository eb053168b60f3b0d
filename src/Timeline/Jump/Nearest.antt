-- ===== src/Timeline/Jump/Nearest.antt =====
-- The jump goes to the nearest start beyond the margin.
use cctv_timeline_viewer_cor.Base.{
  ltb, leb, ◌==◌, if◌then◌else◌, leb→le, ==_iff, leb-false, Bool-cases, filter, find, ◌∈◌, ℕ, ◌+◌,
  ◌≤◌, ◌<◌, ◌≡◌, refl, ap, ◌∙◌, ◌↔◌, ◌⊎◌, inl, inr, Bool, true, false, not, Option, none, some,
  List, [], ◌∷◌, arith,
}
use cctv_timeline_viewer_cor.Recording.{Timeline}
use cctv_timeline_viewer_cor.Media.Median.{insert, sort}
use cctv_timeline_viewer_cor.Timeline.Jump.{
  camera_starts, distinct, find_last, Direction, margin, next_start,
}

-- The two lists have the same elements.
abbrev Same : List ℕ → List ℕ → Type 0
Same xs ys = (t : ℕ) → (t ∈ xs) ↔ (t ∈ ys)

abbrev Ascending : List ℕ → Type 0
Ascending [] = Unit
Ascending (t ∷ ts) = ((u : ℕ) → u ∈ ts → t ≤ u) × Ascending ts

∈-insert : (t : ℕ) (ts : List ℕ) (u : ℕ) → (u ∈ insert t ts) ↔ ((u ≡ t) ⊎ (u ∈ ts))
unfolding insert
∈-insert t [] u = (λ h. h, λ h. h)
∈-insert t (v ∷ ts) u = elim (Bool-cases (leb t v)) [
  | inl le ↦ rw le (λ h. h, λ h. h)
  | inr gt ↦ rw gt (ground (arith, ∈-insert t ts u))
]

least_first : (t v : ℕ) (ts : List ℕ) → Ascending (v ∷ ts) → t ≤ v → (u : ℕ) → u ∈ (v ∷ ts) → t ≤ u
least_first t v ts h le u (inl e) = omega arith
least_first t v ts h le u (inr m) = omega (arith, h.0 u m)

least_rest :
    (t v : ℕ) (ts : List ℕ) → Ascending (v ∷ ts) → v < t → (u : ℕ) → (u ≡ t) ⊎ (u ∈ ts) → v ≤ u
least_rest t v ts h lt u (inl e) = omega arith
least_rest t v ts h lt u (inr m) = h.0 u m

insert-Ascending : (t : ℕ) (ts : List ℕ) → Ascending ts → Ascending (insert t ts)
unfolding insert
insert-Ascending t [] h = (λ u m. absurd m, tt)
insert-Ascending t (v ∷ ts) h = elim (Bool-cases (leb t v)) [
  | inl le ↦ rw le (λ u m. least_first t v ts h (leb→le t v le) u m, h)
  | inr gt ↦ rw gt (
    λ u m. least_rest t v ts h (leb-false t v gt) u ((∈-insert t ts u).0 m),
    insert-Ascending t ts h.1,
  )
]

sort-Ascending : (ts : List ℕ) → Ascending (sort ts)
unfolding sort
sort-Ascending [] = tt
sort-Ascending (t ∷ ts) = insert-Ascending t (sort ts) (sort-Ascending ts)

∈-sort : (ts : List ℕ) → Same (sort ts) ts
unfolding sort
∈-sort [] t = (λ h. h, λ h. h)
∈-sort (u ∷ ts) t = ground (arith, ∈-insert u (sort ts) t, ∈-sort ts t)

module _ (p : ℕ → Bool) (x : ℕ) (xs : List ℕ) (t : ℕ) where
  with_first :
      p x ≡ true
      → (t ∈ filter p xs) ↔ ((t ∈ xs) × (p t ≡ true))
      → (t ∈ (x ∷ filter p xs)) ↔ ((t ∈ (x ∷ xs)) × (p t ≡ true))
  with_first passes rest = (
    λ h. elim h [ inl e ↦ (inl e, ap p e ∙ passes) | inr m ↦ (inr ((rest.0 m).0), (rest.0 m).1) ],
    λ h. elim (h.0) [ inl e ↦ inl e | inr m ↦ inr (rest.1 (m, h.1)) ],
  )

  without_first :
      p x ≡ false
      → (t ∈ filter p xs) ↔ ((t ∈ xs) × (p t ≡ true))
      → (t ∈ filter p xs) ↔ ((t ∈ (x ∷ xs)) × (p t ≡ true))
  without_first fails rest = (
    λ h. (inr ((rest.0 h).0), (rest.0 h).1),
    λ h. elim (h.0) [
      | inl e ↦ absurd (ground (arith, ap p e, h.1, fails))
      | inr m ↦ rest.1 (m, h.1)
    ],
  )

∈-filter : (p : ℕ → Bool) (xs : List ℕ) (t : ℕ) → (t ∈ filter p xs) ↔ ((t ∈ xs) × (p t ≡ true))
∈-filter p [] t = (λ h. absurd h, λ h. absurd h.0)
∈-filter p (x ∷ xs) t = elim (Bool-cases (p x)) [
  | inl passes ↦ rw passes (with_first p x xs t passes (∈-filter p xs t))
  | inr fails ↦ rw fails (without_first p x xs t fails (∈-filter p xs t))
]

∈-distinct : (ts : List ℕ) → Same (distinct ts) ts
unfolding distinct
∈-distinct [] t = (λ h. h, λ h. h)
∈-distinct (u ∷ ts) t = elim (Bool-cases (t == u)) [
  | inl same ↦ (λ h. inl ((==_iff t u).0 same), λ h. inl ((==_iff t u).0 same))
  | inr other ↦ ground (arith, ∈-distinct ts t, ∈-filter (λ v. not (v == u)) (distinct ts) t)
]

-- The least of the elements that pass, or none.
abbrev pub IsLeast : (ℕ → Bool) → List ℕ → Option ℕ → Type 0
IsLeast p ts none = (u : ℕ) → u ∈ ts → p u ≡ false
IsLeast p ts (some t) = (t ∈ ts) × (p t ≡ true) × ((u : ℕ) → u ∈ ts → p u ≡ true → t ≤ u)

abbrev pub IsGreatest : (ℕ → Bool) → List ℕ → Option ℕ → Type 0
IsGreatest p ts none = (u : ℕ) → u ∈ ts → p u ≡ false
IsGreatest p ts (some t) = (t ∈ ts) × (p t ≡ true) × ((u : ℕ) → u ∈ ts → p u ≡ true → u ≤ t)

module _ (p : ℕ → Bool) (t : ℕ) (ts : List ℕ) (h : Ascending (t ∷ ts)) where
  least_here : p t ≡ true → (u : ℕ) → u ∈ (t ∷ ts) → p u ≡ true → t ≤ u
  least_here passes u (inl e) q = omega arith
  least_here passes u (inr m) q = h.0 u m

  beyond :
      (v : ℕ)
      → p t ≡ false
      → ((u : ℕ) → u ∈ ts → p u ≡ true → v ≤ u)
      → (u : ℕ) → u ∈ (t ∷ ts)
      → p u ≡ true
      → v ≤ u
  beyond v fails least u (inl e) r = absurd (ground (arith, ap p e, fails, r))
  beyond v fails least u (inr n) r = least u n r

  neither : p t ≡ false → ((u : ℕ) → u ∈ ts → p u ≡ false) → (u : ℕ) → u ∈ (t ∷ ts) → p u ≡ false
  neither fails rest u (inl e) = ap p e ∙ fails
  neither fails rest u (inr m) = rest u m

  only : ((u : ℕ) → u ∈ ts → p u ≡ false) → (u : ℕ) → u ∈ (t ∷ ts) → p u ≡ true → u ≤ t
  only rest u (inl e) q = omega arith
  only rest u (inr m) q = absurd (ground (arith, rest u m, q))

  behind :
      (v : ℕ)
      → v ∈ ts
      → ((u : ℕ) → u ∈ ts → p u ≡ true → u ≤ v)
      → (u : ℕ) → u ∈ (t ∷ ts)
      → p u ≡ true
      → u ≤ v
  behind v m greatest u (inl e) r = omega (arith, h.0 v m)
  behind v m greatest u (inr n) r = greatest u n r

  IsLeast-there : p t ≡ false → (r : Option ℕ) → IsLeast p ts r → IsLeast p (t ∷ ts) r
  IsLeast-there fails none least = neither fails least
  IsLeast-there fails (some v) (m, q, least) = (inr m, q, beyond v fails least)

  IsGreatest-more :
      (r : Option ℕ)
      → IsGreatest p ts r
      → IsGreatest p (t ∷ ts) (elim r [ some u ↦ some u | none ↦ if p t then some t else none ])
  IsGreatest-more none greatest = elim (Bool-cases (p t)) [
    | inl passes ↦ rw passes (inl refl, passes, only greatest)
    | inr fails ↦ rw fails (neither fails greatest)
  ]
  IsGreatest-more (some v) (m, q, greatest) = (inr m, q, behind v m greatest)

find-IsLeast : (p : ℕ → Bool) (ts : List ℕ) → Ascending ts → IsLeast p ts (find p ts)
find-IsLeast p [] h = λ u m. absurd m
find-IsLeast p (t ∷ ts) h = elim (Bool-cases (p t)) [
  | inl passes ↦ rw passes (inl refl, passes, least_here p t ts h passes)
  | inr fails ↦ rw fails (IsLeast-there p t ts h fails (find p ts) (find-IsLeast p ts h.1))
]

find_last-IsGreatest :
    (p : ℕ → Bool) (ts : List ℕ) → Ascending ts → IsGreatest p ts (find_last p ts)
unfolding find_last
find_last-IsGreatest p [] h = λ u m. absurd m
find_last-IsGreatest p (t ∷ ts) h =
    IsGreatest-more p t ts h (find_last p ts) (find_last-IsGreatest p ts h.1)

-- The elements of a list decide what is least or greatest.
IsLeast-Same :
    (p : ℕ → Bool) (xs ys : List ℕ) (r : Option ℕ) → Same xs ys → IsLeast p xs r → IsLeast p ys r
IsLeast-Same p xs ys none same least = λ u m. least u ((same u).1 m)
IsLeast-Same p xs ys (some t) same (m, q, least) = ((same t).0 m, q, λ u n. least u ((same u).1 n))

IsGreatest-Same :
    (p : ℕ → Bool) (xs ys : List ℕ) (r : Option ℕ)
    → Same xs ys
    → IsGreatest p xs r
    → IsGreatest p ys r
IsGreatest-Same p xs ys none same greatest = λ u m. greatest u ((same u).1 m)
IsGreatest-Same p xs ys (some t) same (m, q, greatest) =
    ((same t).0 m, q, λ u n. greatest u ((same u).1 n))

∈-starts : (ts : List ℕ) → Same (sort (distinct ts)) ts
∈-starts ts t = (
  λ m. (∈-distinct ts t).0 ((∈-sort (distinct ts) t).0 m),
  λ m. (∈-sort (distinct ts) t).1 ((∈-distinct ts t).1 m),
)

-- A jump forward goes to the least start of any camera that is more than half a second after the
-- clock, and a jump back to the greatest that is more than half a second before; where there
-- is none, the clock stays. The recordings need no order and may start together.
pub next_start-IsNearest :
    (time : ℕ) (timeline : Timeline)
    → IsLeast
        (λ t. ltb (time + margin) t)
        (camera_starts timeline.cameras)
        (next_start Direction.forward time timeline)
      × IsGreatest
          (λ t. ltb (t + margin) time)
          (camera_starts timeline.cameras)
          (next_start Direction.back time timeline)
unfolding next_start
next_start-IsNearest time timeline =
    let starts = camera_starts timeline.cameras in
    let order = sort-Ascending (distinct starts) in
    (
      IsLeast-Same _ (sort (distinct starts)) starts _ (∈-starts starts)
          (find-IsLeast _ (sort (distinct starts)) order),
      IsGreatest-Same _ (sort (distinct starts)) starts _ (∈-starts starts)
          (find_last-IsGreatest _ (sort (distinct starts)) order),
    )
