-- ===== src/Hotspot/Promoted.antt =====
-- The order of the cameras after a promotion: the valid ids, each once, the promoted one first.
use cctv_timeline_viewer_cor.Base.{
  ltb, ◌==◌, if◌then◌else◌, ==_iff, Bool-cases, get_elem?, filter, ℕ, ◌+◌, ◌≤◌, ◌≡◌, refl, ap, inl,
  inr, Bool, true, false, not, some, List, [], ◌∷◌, ◌++◌, arith,
}
use cctv_timeline_viewer_cor.Hotspot.{includes, promoted_order}

-- How often an id stands in a list.
abbrev pub count : List ℕ → ℕ → ℕ
count [] id = 0
count (x ∷ xs) id = (if x == id then 1 else 0) + count xs id

abbrev pub IsDistinct : List ℕ → Type 0
IsDistinct ids = (id : ℕ) → count ids id ≤ 1

pub count-append : (xs ys : List ℕ) (id : ℕ) → count (xs ++ ys) id ≡ count xs id + count ys id
count-append [] ys id = omega arith
count-append (x ∷ xs) ys id = omega (arith, count-append xs ys id)

count-if :
    (x : ℕ) (ys : List ℕ) (id : ℕ) (b : Bool)
    → count (if b then x ∷ ys else ys) id
      ≡ (if b then (if x == id then 1 else 0) else 0) + count ys id
count-if x ys id true = refl
count-if x ys id false = omega arith

pub count-filter :
    (p : ℕ → Bool) (xs : List ℕ) (id : ℕ)
    → count (filter p xs) id ≡ (if p id then count xs id else 0)
count-filter p [] id = ground arith
count-filter p (x ∷ xs) id = elim (Bool-cases (x == id)) [
  | inl same ↦
      let at : p x ≡ p id = ap p ((==_iff x id).0 same) in
      ground (arith, count-if x (filter p xs) id (p x), count-filter p xs id)
  | inr other ↦ ground (arith, count-if x (filter p xs) id (p x), count-filter p xs id)
]

pub includes-count : (xs : List ℕ) (id : ℕ) → includes xs id ≡ ltb 0 (count xs id)
includes-count [] id = refl
includes-count (x ∷ xs) id = ground (arith, includes-count xs id)

module _ (order valid_ids : List ℕ) (once : IsDistinct order)
    (once_valid : IsDistinct valid_ids) where
  pub normalized-count :
      (id : ℕ)
      → count
          (filter (includes valid_ids) order ++ filter (λ i. not (includes order i)) valid_ids)
          id
        ≡ count valid_ids id
  normalized-count id =
      let both =
        count-append (filter (includes valid_ids) order)
          (filter (λ i. not (includes order i)) valid_ids) id in
      let kept = count-filter (includes valid_ids) order id in
      let added = count-filter (λ i. not (includes order i)) valid_ids id in
      ground (
        arith,
        both,
        kept,
        added,
        includes-count order id,
        includes-count valid_ids id,
        once id,
        once_valid id,
      )

  front-count :
      (camera_id : ℕ) (ids : List ℕ)
      → includes valid_ids camera_id ≡ true
      → ((id : ℕ) → count ids id ≡ count valid_ids id)
      → (id : ℕ)
      → count (camera_id ∷ filter (λ i. not (i == camera_id)) ids) id ≡ count valid_ids id
  front-count camera_id ids valid same id = elim (Bool-cases (camera_id == id)) [
    | inl here ↦
        let at : count valid_ids camera_id ≡ count valid_ids id =
          ap (count valid_ids) ((==_iff camera_id id).0 here) in
        ground (
          arith,
          count-filter (λ i. not (i == camera_id)) ids id,
          includes-count valid_ids camera_id,
          once_valid id,
          valid,
        )
    | inr other ↦ ground (arith, count-filter (λ i. not (i == camera_id)) ids id, same id)
  ]

  -- After a promotion, each valid id stands in the order exactly as often as among the valid ids, and
  -- no other id does; a valid camera that is promoted comes first. The order and the valid
  -- ids have no repetitions.
  pub promoted_order-count :
      (camera_id : ℕ)
      → ((id : ℕ) → count (promoted_order order camera_id valid_ids) id ≡ count valid_ids id)
        × (includes valid_ids camera_id ≡ true
            → get_elem? (promoted_order order camera_id valid_ids) 0 ≡ some camera_id)
  unfolding promoted_order
  promoted_order-count camera_id = elim (Bool-cases (includes valid_ids camera_id)) [
    | inl valid ↦ rw valid ((λ id. front-count camera_id _ valid normalized-count id), λ h. refl)
    | inr unknown ↦ rw unknown (normalized-count, λ h. absurd (ground (arith, h, unknown)))
  ]
