-- ===== src/Media/Index/Built.antt =====
-- What `intervalIndex` builds: a tree of maxima over the ends, wide enough for every recording.
use native.Mathlib.Nat.{pow-suc}
use cctv_timeline_viewer_cor.Base.{
  ℕ, zero, suc, ◌+◌, ◌-◌, ◌*◌, ◌^◌, ◌≤◌, ◌<◌, ◌≡◌, refl, ap, ◌∙◌, true, false, List, [], ◌∷◌,
  Option, none, some, arith, ltb, Bool-cases, inl, inr, length, get_elem?, Extended, finite,
  max_extended,
}
use mathlib.Core.Option.{some-injective}
use cctv_timeline_viewer_cor.Recording.{Segment}
use cctv_timeline_viewer_cor.Media.Search.Bounds.{IsSorted}
use cctv_timeline_viewer_cor.Media.Index.{
  Float64Array, Index, visible_end, active_end, grow_size, starts_before, fill_leaves, raise_maxima,
  empty_index, interval_index,
}
use cctv_timeline_viewer_cor.Media.Index.Heap.{
  write-at, write-ne, raise_maxima-above, raise_maxima-children,
}

-- `cells` is a tree of maxima whose leaf for recording `s` holds `end s`.
pub record IsTree (segments : List Segment) (end : Segment → Extended) (size : ℕ)
    (cells : Float64Array) : Type 0 where
  pub leaf : (i : ℕ) (s : Segment) → get_elem? segments i ≡ some s → cells (size + i) ≡ end s
  pub inner :
      (i : ℕ) → 0 < i → i < size → cells i ≡ max_extended (cells (i * 2)) (cells (i * 2 + 1))

pub record IsIndex (segments : List Segment) (index : Index) : Type 0 where
  pub height : ℕ
  pub power : index.size ≡ 2 ^ height
  pub room : length segments ≤ index.size
  pub visible : IsTree segments (λ s. finite (visible_end s)) index.size index.visible_max
  pub active : IsTree segments active_end index.size index.active_max
  pub sorted : index.sorted ≡ true → IsSorted segments

grow_size-power :
    (fuel count size k : ℕ) → size ≡ 2 ^ k → (h : ℕ) × (grow_size fuel count size ≡ 2 ^ h)
unfolding grow_size
grow_size-power zero count size k e = (k, e)
grow_size-power (suc fuel) count size k e = elim (Bool-cases (ltb size count)) [
  | inl more ↦ rw more (grow_size-power fuel count (size * 2) (suc k) (rw (pow-suc, e)))
  | inr done ↦ rw done (k, e)
]

le-grow_size :
    (fuel count size : ℕ) → 0 < size → count ≤ fuel + size → count ≤ grow_size fuel count size
unfolding grow_size
le-grow_size zero count size pos h = omega arith
le-grow_size (suc fuel) count size pos h = ground (arith, le-grow_size fuel count (size * 2))

le_grow_size : (fuel count size : ℕ) → size ≤ grow_size fuel count size
unfolding grow_size
le_grow_size zero count size = omega arith
le_grow_size (suc fuel) count size = ground (arith, le_grow_size fuel count (size * 2))

fill-size :
    (i : ℕ) (p : Option Segment) (segs : List Segment) (index : Index)
    → (fill_leaves i p segs index).size ≡ index.size
unfolding fill_leaves
fill-size i p [] index = refl
fill-size i p (s ∷ segs) index = fill-size (suc i) (some s) segs _

-- The loop leaves the cells below the current leaf alone.
fill-below :
    (i : ℕ) (p : Option Segment) (segs : List Segment) (index : Index) (j : ℕ)
    → j < index.size + i
    → ((fill_leaves i p segs index).visible_max j ≡ index.visible_max j)
      × ((fill_leaves i p segs index).active_max j ≡ index.active_max j)
unfolding fill_leaves
fill-below i p [] index j h = (refl, refl)
fill-below i p (s ∷ segs) index j h =
    let below = fill-below (suc i) (some s) segs _ j (omega arith) in
    (
      below.0 ∙ write-ne index.visible_max (index.size + i) j _ (omega arith),
      below.1 ∙ write-ne index.active_max (index.size + i) j _ (omega arith),
    )

fill-leaf :
    (i : ℕ) (p : Option Segment) (segs : List Segment) (index : Index) (k j : ℕ) (s : Segment)
    → get_elem? segs k ≡ some s
    → j ≡ index.size + i + k
    → ((fill_leaves i p segs index).visible_max j ≡ finite (visible_end s))
      × ((fill_leaves i p segs index).active_max j ≡ active_end s)
unfolding fill_leaves
fill-leaf i p [] index k j s e f = absurd (ground arith)
fill-leaf i p (t ∷ segs) index zero j s e f =
    let below = fill-below (suc i) (some t) segs _ j (omega arith) in
    let same : t ≡ s = some-injective _ _ e in
    (
      below.0
          ∙ write-at index.visible_max (index.size + i) j _ (omega arith)
          ∙ ap (λ u. finite (visible_end u)) same,
      below.1 ∙ write-at index.active_max (index.size + i) j _ (omega arith) ∙ ap active_end same,
    )
fill-leaf i p (t ∷ segs) index (suc k) j s e f =
    fill-leaf (suc i) (some t) segs _ k j s e (omega arith)

abbrev Chain : Option Segment → List Segment → Type 0
Chain p [] = Unit
Chain p (s ∷ segs) = (starts_before s p ≡ false) × Chain (some s) segs

fill-sorted :
    (i : ℕ) (p : Option Segment) (segs : List Segment) (index : Index)
    → (fill_leaves i p segs index).sorted ≡ true
    → (index.sorted ≡ true) × Chain p segs
unfolding fill_leaves
fill-sorted i p [] index h = (h, tt)
fill-sorted i p (s ∷ segs) index h = ground (arith, fill-sorted (suc i) (some s) segs _ h)

Chain-least :
    (s : Segment) (segs : List Segment) (j : ℕ) (t : Segment)
    → Chain (some s) segs
    → get_elem? segs j ≡ some t
    → s.start_ts ≤ t.start_ts
Chain-least s [] j t c e = absurd (ground arith)
Chain-least s (u ∷ segs) zero t c e = ground arith
Chain-least s (u ∷ segs) (suc j) t c e = ground (arith, Chain-least u segs j t c.1 e)

Chain-IsSorted : (p : Option Segment) (segs : List Segment) → Chain p segs → IsSorted segs
Chain-IsSorted p [] c i j s t e f le = absurd (ground arith)
Chain-IsSorted p (u ∷ segs) c zero zero s t e f le = ground arith
Chain-IsSorted p (u ∷ segs) c zero (suc j) s t e f le = ground (arith, Chain-least u segs j t c.1 f)
Chain-IsSorted p (u ∷ segs) c (suc i) zero s t e f le = absurd (omega arith)
Chain-IsSorted p (u ∷ segs) c (suc i) (suc j) s t e f le =
    Chain-IsSorted (some u) segs c.1 i j s t e f (omega arith)

raise-IsTree :
    (segments : List Segment) (end : Segment → Extended) (size : ℕ) (cells : Float64Array)
    → ((i : ℕ) (s : Segment) → get_elem? segments i ≡ some s → cells (size + i) ≡ end s)
    → 0 < size
    → IsTree segments end size (raise_maxima (size - 1) cells)
raise-IsTree segments end size cells leaf pos = record {
  leaf = λ i s e. raise_maxima-above (size - 1) cells (size + i) (omega arith) ∙ leaf i s e;
  inner = λ i lo hi. raise_maxima-children (size - 1) cells i lo (omega arith);
}

-- The index of every list of recordings is right: its size is a power of two with room for all of
-- them, the leaves of its two trees hold the ends of the recordings, each inner cell holds the
-- maximum of its two children, and `sorted` is set only for recordings in order of their starts.
pub interval_index-IsIndex : (segments : List Segment) → IsIndex segments (interval_index segments)
unfolding interval_index
interval_index-IsIndex segments =
    let n = length segments in
    let size = grow_size n n 1 in
    let filled = fill_leaves 0 none segments (empty_index size) in
    let (h, e) = grow_size-power n n 1 0 refl in
    let wide : filled.size ≡ size = fill-size 0 none segments (empty_index size) in
    let pos : 0 < size = omega (arith, le_grow_size n n 1) in
    record {
      height = h;
      power = wide ∙ e;
      room = omega (arith, wide, le-grow_size n n 1);
      visible = rw wide (
          raise-IsTree segments (λ s. finite (visible_end s)) size filled.visible_max
            (λ i s f.
              (fill-leaf 0 none segments (empty_index size) i (size + i) s f (omega arith)).0)
            pos);
      active = rw wide (
          raise-IsTree segments active_end size filled.active_max
            (λ i s f.
              (fill-leaf 0 none segments (empty_index size) i (size + i) s f (omega arith)).1)
            pos);
      sorted =
          λ t. Chain-IsSorted none segments (fill-sorted 0 none segments (empty_index size) t).1;
    }
