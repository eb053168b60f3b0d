-- ===== src/Media/Index/Cover.antt =====
-- Which leaves stand below a cell of the tree: the geometry that `collectOverlaps` and
-- `findRightmostActive` carry as `node`, `left` and `right`.
use native.Mathlib.Nat.{two-pow-succ}
use cctv_timeline_viewer_cor.Base.{
  ℕ, zero, suc, ◌+◌, ◌*◌, ◌^◌, ◌≤◌, ◌<◌, ◌≡◌, true, arith, tests, ltb, get_elem?, Bool-cases, inl,
  inr, List, some, Extended, lte, lte_refl, lte-max_left, lte-max_right, ap,
}
use cctv_timeline_viewer_cor.Recording.{Segment}
use cctv_timeline_viewer_cor.Media.Index.{Float64Array}
use cctv_timeline_viewer_cor.Media.Index.Built.{IsTree}

-- The cell `node` stands above the 2 ^ height leaves from `left`.
pub record Covers (size height node left : ℕ) : Type 0 where
  pub at : node * 2 ^ height ≡ size + left
  pub fits : left + 2 ^ height ≤ size
  pub positive : 0 < node

pub pow_positive : (h : ℕ) → 0 < 2 ^ h
pow_positive zero = omega arith
pow_positive (suc h) = omega (arith, two-pow-succ h, pow_positive h)

pub Covers-root : (size h : ℕ) → size ≡ 2 ^ h → Covers size h 1 0
Covers-root size h e = record { at = omega arith; fits = omega arith; positive = omega arith }

module _ {size h node left : ℕ} (c : Covers size (suc h) node left) where
  spread : node * 2 ^ h + node * 2 ^ h ≡ size + left
  spread = omega (arith, c.at, ap (λ (t : ℕ). node * t) (two-pow-succ h))

  pub Covers-lower : Covers size h (node * 2) left
  Covers-lower = record {
    at = omega (arith, spread);
    fits = omega (arith, c.fits, two-pow-succ h);
    positive = omega (arith, c.positive);
  }

  pub Covers-upper : Covers size h (node * 2 + 1) (left + 2 ^ h)
  Covers-upper = record {
    at = omega (arith, spread);
    fits = omega (arith, c.fits, two-pow-succ h);
    positive = omega arith;
  }

  pub inner-lt : node < size
  inner-lt = grind (arith, spread, c.fits, two-pow-succ h, pow_positive h)

-- In a tree of maxima no leaf below a cell is greater than the cell.
pub leaf-le :
    (segments : List Segment) (end : Segment → Extended) (size : ℕ) (cells : Float64Array)
    → IsTree segments end size cells
    → (height node left : ℕ) → Covers size height node left
    → (i : ℕ) (s : Segment) → left ≤ i
    → i < left + 2 ^ height
    → get_elem? segments i ≡ some s
    → lte (end s) (cells node) ≡ true
leaf-le segments end size cells tree zero node left c i s lo hi e =
    let same : node ≡ size + i = omega (arith, c.at) in
    rw (same, tree.leaf i s e) (lte_refl (end s))
leaf-le segments end size cells tree (suc h) node left c i s lo hi e =
    rw (tree.inner node c.positive (inner-lt c)) (elim (Bool-cases (ltb i (left + 2 ^ h))) [
      | inl near ↦ lte-max_left (end s) (cells (node * 2)) (cells (node * 2 + 1)) (
          leaf-le segments end size cells tree h (node * 2) left (Covers-lower c) i s lo
            (omega tests) e)
      | inr far ↦ lte-max_right (end s) (cells (node * 2)) (cells (node * 2 + 1)) (
          leaf-le segments end size cells tree h (node * 2 + 1) (left + 2 ^ h) (Covers-upper c) i s
            (omega tests) (omega (tests, two-pow-succ h)) e)
    ])

pub lt-pow : (h : ℕ) → h < 2 ^ h
lt-pow zero = omega arith
lt-pow (suc h) = omega (arith, two-pow-succ h, lt-pow h)
