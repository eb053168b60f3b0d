-- ===== src/Timeline/Whole.antt =====
-- Numbers with a sign, for the movements of the pointer.
use cctv_timeline_viewer_cor.Base.{ltb, if◌then◌else◌, ℕ, zero, suc, ◌-◌, ◌*◌, ◌/◌}

pub data ℤ : Type 0 where
  pos : ℕ → ℤ
  negsuc : ℕ → ℤ

-- A number below 0, or 0.
abbrev pub below_zero : ℕ → ℤ
below_zero zero = pos 0
below_zero (suc n) = negsuc n

abbrev pub neg : ℤ → ℤ
neg (pos n) = below_zero n
neg (negsuc n) = pos (suc n)

abbrev pub magnitude : ℤ → ℕ
magnitude (pos n) = n
magnitude (negsuc n) = suc n

-- `a * (range / width)`, rounded toward 0
unfoldable pub scale : ℤ → ℕ → ℕ → ℤ
scale (pos n) range width = pos (n * range / width)
scale (negsuc n) range width = below_zero (suc n * range / width)

-- `a - b`
unfoldable pub difference : ℕ → ℕ → ℤ
difference a b = if ltb a b then below_zero (b - a) else pos (a - b)
