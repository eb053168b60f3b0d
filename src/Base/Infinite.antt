-- ===== src/Base/Infinite.antt =====
-- Numbers with both infinities, for the places where the source computes with `Infinity`.
use Prim.Native.Nat.{ℕ}
use mathlib.Core.Path.{◌≡◌}
use mathlib.Core.Bool.{Bool, true, false, not}
use mathlib.Core.Logic.{inl, inr}
use native.Mathlib.Omega.{arith}
use package.cctv_timeline_viewer_cor.Base.Tests.{leb, if◌then◌else◌, Bool-cases}

pub data Extended : Type 0 where
  minus_infinity : Extended
  finite : ℕ → Extended
  plus_infinity : Extended

abbrev pub lte : Extended → Extended → Bool
lte minus_infinity b = true
lte (finite a) minus_infinity = false
lte (finite a) (finite b) = leb a b
lte (finite a) plus_infinity = true
lte plus_infinity minus_infinity = false
lte plus_infinity (finite b) = false
lte plus_infinity plus_infinity = true

abbrev pub lt_extended : Extended → Extended → Bool
lt_extended a b = not (lte b a)

-- `Math.max`
abbrev pub max_extended : Extended → Extended → Extended
max_extended a b = if lte a b then b else a

pub lte_trans : (a b c : Extended) → lte a b ≡ true → lte b c ≡ true → lte a c ≡ true
lte_trans minus_infinity b c h k = ground arith
lte_trans (finite a) minus_infinity c h k = ground arith
lte_trans (finite a) (finite b) c h k = ground arith
lte_trans (finite a) plus_infinity c h k = ground arith
lte_trans plus_infinity b c h k = ground arith

pub lte-total : (a b : Extended) → lte a b ≡ false → lte b a ≡ true
lte-total a b h = ground arith

pub lte_refl : (a : Extended) → lte a a ≡ true
lte_refl a = ground arith

pub lte-max_left : (a b c : Extended) → lte a b ≡ true → lte a (max_extended b c) ≡ true
lte-max_left a b c h = elim (Bool-cases (lte b c)) [
  | inl le ↦ rw le (lte_trans a b c h le)
  | inr gt ↦ rw gt h
]

pub lte-max_right : (a b c : Extended) → lte a c ≡ true → lte a (max_extended b c) ≡ true
lte-max_right a b c h = elim (Bool-cases (lte b c)) [
  | inl le ↦ rw le h
  | inr gt ↦ rw gt (lte_trans a c b h (lte-total b c gt))
]
