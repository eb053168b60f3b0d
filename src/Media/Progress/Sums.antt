-- ===== src/Media/Progress/Sums.antt =====
-- An assignment changes the entry of its key alone, and the sums by that entry's share.

use text.Mathlib.TextEquality.{eq_iff}
use cctv_timeline_viewer_cor.Base.{
  if◌then◌else◌, ℕ, ◌+◌, ◌≤◌, ◌≡◌, Bool, false, Option, none, some, [], ◌∷◌, arith,
}
use cctv_timeline_viewer_cor.Media.Progress.{Key, Entry, Progress, same_key, lookup, assign, sum_by}

pub lookup-assign_self : (k : Key) (e : Entry) (p : Progress) → lookup k (assign k e p) ≡ some e
unfolding lookup assign
lookup-assign_self (c, q) e [] = ground (arith, eq_iff q q)
lookup-assign_self (c, q) e (((d, r), f) ∷ p) =
    ground (arith, eq_iff r q, lookup-assign_self (c, q) e p)

pub lookup-assign_ne :
    (k j : Key) (e : Entry) (p : Progress)
    → same_key k j ≡ false
    → lookup j (assign k e p) ≡ lookup j p
unfolding lookup assign
lookup-assign_ne (c, q) (d, r) e [] h = ground arith
lookup-assign_ne (c, q) (d, r) e (((i, s), f) ∷ p) h =
    ground (arith, eq_iff s q, eq_iff q r, eq_iff s r, lookup-assign_ne (c, q) (d, r) e p h)

module _ (test : Entry → Bool) (field : Entry → ℕ) where
  abbrev pub share : Option Entry → ℕ
  share none = 0
  share (some e) = if test e then field e else 0

  pub sum-assign :
      (k : Key) (e : Entry) (p : Progress)
      → sum_by test field (assign k e p) + share (lookup k p) ≡ sum_by test field p + share (some e)
  unfolding sum_by assign lookup
  sum-assign k e [] = ground arith
  sum-assign k e ((j, f) ∷ p) = ground (arith, sum-assign k e p)

  pub share-le : (k : Key) (p : Progress) → share (lookup k p) ≤ sum_by test field p
  unfolding sum_by lookup
  share-le k [] = omega arith
  share-le k ((j, f) ∷ p) = ground (arith, share-le k p)
