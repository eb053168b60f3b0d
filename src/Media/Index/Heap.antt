-- ===== src/Media/Index/Heap.antt =====
-- The second half of `intervalIndex` makes every inner cell the maximum of its two children.
use cctv_timeline_viewer_cor.Base.{
  ℕ, zero, suc, ◌+◌, ◌*◌, ◌≤◌, ◌<◌, ◌≡◌, refl, ◌∙◌, arith, ◌==◌, Bool-cases, inl, inr, Extended,
  max_extended, ==_iff,
}
use cctv_timeline_viewer_cor.Media.Index.{Float64Array, write, raise_maxima}

pub write_self : (cells : Float64Array) (i : ℕ) (v : Extended) → write cells i v i ≡ v
write_self cells i v = ground arith

pub write-at : (cells : Float64Array) (i j : ℕ) (v : Extended) → j ≡ i → write cells i v j ≡ v
write-at cells i j v h = ground arith

pub write-ne :
    (cells : Float64Array) (i j : ℕ) (v : Extended) → ¬ (j ≡ i) → write cells i v j ≡ cells j
write-ne cells i j v h = ground arith

-- A cell above the ones that the loop visits keeps its value.
pub raise_maxima-above :
    (k : ℕ) (cells : Float64Array) (j : ℕ) → k < j → raise_maxima k cells j ≡ cells j
unfolding raise_maxima
raise_maxima-above zero cells j h = refl
raise_maxima-above (suc k) cells j h =
    raise_maxima-above k _ j (omega arith) ∙ write-ne cells (suc k) j _ (omega arith)

-- A visited cell ends as the maximum of what its two children end as.
pub raise_maxima-children :
    (k : ℕ) (cells : Float64Array) (i : ℕ)
    → 0 < i
    → i ≤ k
    → raise_maxima k cells i
      ≡ max_extended (raise_maxima k cells (i * 2)) (raise_maxima k cells (i * 2 + 1))
unfolding raise_maxima
raise_maxima-children zero cells i pos h = absurd (omega arith)
raise_maxima-children (suc k) cells i pos h =
    let cells' : Float64Array =
      write cells (suc k) (max_extended (cells (suc k * 2)) (cells (suc k * 2 + 1))) in
    elim (Bool-cases (i == suc k)) [
      | inl e ↦ rw ((==_iff i (suc k)).0 e) (
          rw (
            raise_maxima-above k cells' (suc k) (omega arith),
            raise_maxima-above k cells' (suc k * 2) (omega arith),
            raise_maxima-above k cells' (suc k * 2 + 1) (omega arith),
            write_self cells (suc k) (max_extended (cells (suc k * 2)) (cells (suc k * 2 + 1))),
            write-ne cells (suc k) (suc k * 2)
                (max_extended (cells (suc k * 2)) (cells (suc k * 2 + 1))) (omega arith),
            write-ne cells (suc k) (suc k * 2 + 1)
                (max_extended (cells (suc k * 2)) (cells (suc k * 2 + 1))) (omega arith),
          ))
      | inr ne ↦ raise_maxima-children k _ i pos (ground arith)
    ]
