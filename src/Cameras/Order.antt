-- ===== src/Cameras/Order.antt =====
-- The saved order of the cameras: sorting by it loses no camera and doubles none.
use cctv_timeline_viewer_cor.Base.{
  ◌==◌, if◌then◌else◌, ==_iff, Bool-cases, filter, ℕ, ◌+◌, ◌≡◌, refl, ap, ◌∙◌, inl, inr, Bool, not,
  Option, none, some, List, [], ◌∷◌, ◌++◌, arith,
}
use cctv_timeline_viewer_cor.Hotspot.{includes}
use cctv_timeline_viewer_cor.Hotspot.Promoted.{
  count, IsDistinct, count-append, count-filter, includes-count,
}
use cctv_timeline_viewer_cor.Cameras.{
  Camera, camera_ids, camera_of, saved_first, sort_cameras_by_order,
}
use cctv_timeline_viewer_cor.Cameras.Shown.{IsOf, camera_of-IsOf}

ids-append : (xs ys : List Camera) → camera_ids (xs ++ ys) ≡ camera_ids xs ++ camera_ids ys
ids-append [] ys = refl
ids-append (c ∷ xs) ys = ap (λ ids. c.id ∷ ids) (ids-append xs ys)

-- A filter that reads the id alone.
ids-filter :
    (p : ℕ → Bool) (cameras : List Camera)
    → camera_ids (filter (λ c. p c.id) cameras) ≡ filter p (camera_ids cameras)
ids-filter p [] = refl
ids-filter p (c ∷ cameras) = elim (Bool-cases (p c.id)) [
  | inl keep ↦ rw keep (ap (λ ids. c.id ∷ ids) (ids-filter p cameras))
  | inr drop ↦ rw drop (ids-filter p cameras)
]

count-kept :
    (p : ℕ → Bool) (cameras : List Camera) (i : ℕ)
    → count (camera_ids (filter (λ c. p c.id) cameras)) i
      ≡ (if p i then count (camera_ids cameras) i else 0)
count-kept p cameras i =
    ap (λ ids. count ids i) (ids-filter p cameras) ∙ count-filter p (camera_ids cameras) i

-- The cameras taken and those left are the cameras there were.
abbrev Parts : List Camera → List Camera × List Camera → Type 0
Parts by_id found =
    (i : ℕ)
    → count (camera_ids found.0) i + count (camera_ids found.1) i ≡ count (camera_ids by_id) i

Parts-taken :
    (by_id : List Camera) (id : ℕ) (r : Option Camera) (skipped others : List Camera × List Camera)
    → IsDistinct (camera_ids by_id)
    → IsOf by_id id r
    → Parts by_id skipped
    → Parts (filter (λ c. not (c.id == id)) by_id) others
    → Parts by_id (elim r [ none ↦ skipped | some c ↦ (c ∷ others.0, others.1) ])
Parts-taken by_id id none skipped others once found p q = p
Parts-taken by_id id (some c) skipped others once found p q = λ i. elim (Bool-cases (id == i)) [
  | inl here ↦
      let at : count (camera_ids by_id) id ≡ count (camera_ids by_id) i =
        ap (count (camera_ids by_id)) ((==_iff id i).0 here) in
      ground (
        arith,
        q i,
        count-kept (λ j. not (j == id)) by_id i,
        includes-count (camera_ids by_id) id,
        once id,
        found,
      )
  | inr other ↦ ground (arith, q i, count-kept (λ j. not (j == id)) by_id i, found)
]

saved_first-Parts :
    (order : List ℕ) (by_id : List Camera)
    → IsDistinct (camera_ids by_id)
    → Parts by_id (saved_first by_id order)
unfolding saved_first
saved_first-Parts [] by_id once = λ i. omega arith
saved_first-Parts (id ∷ order) by_id once =
    Parts-taken by_id id (camera_of by_id id) _ _ once (camera_of-IsOf by_id id)
      (saved_first-Parts order by_id once)
      (saved_first-Parts order (filter (λ c. not (c.id == id)) by_id)
        (λ i. ground (arith, count-kept (λ j. not (j == id)) by_id i, once i)))

-- Sorting cameras with different ids by any saved order, with unknown or repeated ids in it, gives
-- the same cameras, each once.
pub sort_cameras_by_order-count :
    (order : List ℕ) (cameras : List Camera)
    → IsDistinct (camera_ids cameras)
    → (i : ℕ)
    → count (camera_ids (sort_cameras_by_order order cameras)) i ≡ count (camera_ids cameras) i
unfolding sort_cameras_by_order
sort_cameras_by_order-count order cameras once i =
    let found = saved_first cameras order in
    let parts = saved_first-Parts order cameras once i in
    let rest = count-kept (includes (camera_ids found.1)) cameras i in
    ap (λ ids. count ids i) (ids-append found.0 _)
    ∙ count-append (camera_ids found.0) _ i
    ∙ ground (arith, parts, rest, includes-count (camera_ids found.1) i, once i)
