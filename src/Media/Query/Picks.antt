-- ===== src/Media/Query/Picks.antt =====
-- The recordings of a range of indices that pass a test, in order: what a walk over that range of
-- leaves should return.
use cctv_timeline_viewer_cor.Base.{
  ℕ, zero, suc, ◌+◌, ◌≤◌, ◌<◌, ◌≡◌, refl, Bool, true, false, List, [], ◌∷◌, ◌++◌, none, some,
  if◌then◌else◌, arith, length, get_elem?, filter, inl, inr,
}
use Prim.Native.Nat.add
use mathlib.Core.Path.{sym, ap, ◌∙◌}
use mathlib.Core.List.{append_assoc}
use native.Mathlib.Nat.{zero-add, add-zero}
use cctv_timeline_viewer_cor.Base.{Option-cases}
use cctv_timeline_viewer_cor.Media.Query.{push_at}
use cctv_timeline_viewer_cor.Recording.{Segment}

module _ (keep : ℕ → Segment → Bool) (segments : List Segment) where
  pub pick : ℕ → List Segment
  pick i = elim (get_elem? segments i) [ none ↦ [] | some s ↦ if keep i s then s ∷ [] else [] ]

  -- `count` indices, the first of them `i`
  pub picks : ℕ → ℕ → List Segment
  picks i zero = []
  picks i (suc count) = pick i ++ picks (suc i) count

  pub picks-add : (i m n : ℕ) → picks i (m + n) ≡ picks i m ++ picks (i + m) n
  unfolding picks
  picks-add i zero n = rw (zero-add, add-zero)
  picks-add i (suc m) n =
      rw (add.suc m n, picks-add (suc i) m n)
        (sym (append_assoc (pick i) (picks (suc i) m) _)
          ∙ ap (λ k. (pick i ++ picks (suc i) m) ++ picks k n) (omega arith))

  pick-nothing :
      (i : ℕ) → ((s : Segment) → get_elem? segments i ≡ some s → keep i s ≡ false) → pick i ≡ []
  unfolding pick
  pick-nothing i h = elim (Option-cases (get_elem? segments i)) [
    | inl e ↦ rw (e, pick)
    | inr (s, e) ↦ rw (e, h s e, pick)
  ]

  -- One index, at which whatever recording stands there is kept.
  pub picks-one :
      (i : ℕ)
      → ((s : Segment) → get_elem? segments i ≡ some s → keep i s ≡ true)
      → picks i 1 ≡ push_at segments i
  unfolding picks pick
  picks-one i h = elim (Option-cases (get_elem? segments i)) [
    | inl e ↦ rw (e, pick, push_at)
    | inr (s, e) ↦ rw (e, h s e, pick, push_at)
  ]

  pub picks-nothing :
      (i count : ℕ)
      → ((j : ℕ) (s : Segment)
          → i ≤ j
          → j < i + count
          → get_elem? segments j ≡ some s
          → keep j s ≡ false)
      → picks i count ≡ []
  unfolding picks
  picks-nothing i zero h = refl
  picks-nothing i (suc count) h = rw (
    pick-nothing i (λ s e. h i s (omega arith) (omega arith) e),
    picks-nothing (suc i) count (λ j s lo hi. h j s (omega arith) (omega arith)),
  )

module _ (keep : ℕ → Segment → Bool) (x : Segment) (xs : List Segment) where
  picks-tail : (i n : ℕ) → picks keep (x ∷ xs) (suc i) n ≡ picks (λ j. keep (suc j)) xs i n
  unfolding picks pick
  picks-tail i zero = refl
  picks-tail i (suc n) = rw (picks-tail (suc i) n)

  picks-first :
      (n : ℕ)
      → picks keep (x ∷ xs) 0 (suc n)
        ≡ (if keep 0 x then x ∷ [] else []) ++ picks (λ j. keep (suc j)) xs 0 n
  unfolding picks pick
  picks-first n = rw (picks-tail 0 n)

if_append :
    (b : Bool) (x : Segment) (xs : List Segment)
    → (if b then x ∷ [] else []) ++ xs ≡ (if b then x ∷ xs else xs)
if_append true x xs = refl
if_append false x xs = refl

-- Over all indices, with a test that is about the recordings alone: the filtered list.
pub picks-filter :
    (keep : ℕ → Segment → Bool) (test : Segment → Bool) (segments : List Segment) (count : ℕ)
    → length segments ≤ count
    → ((i : ℕ) (s : Segment) → get_elem? segments i ≡ some s → keep i s ≡ test s)
    → picks keep segments 0 count ≡ filter test segments
picks-filter keep test [] count h same =
    picks-nothing keep [] 0 count (λ j s lo hi e. absurd (ground arith))
picks-filter keep test (x ∷ xs) zero h same = absurd (omega arith)
picks-filter keep test (x ∷ xs) (suc count) h same =
    rw
      (
        picks-first keep x xs count,
        picks-filter (λ j. keep (suc j)) test xs count (omega arith) (λ i s. same (suc i) s),
        same 0 x refl,
      )
      (if_append (test x) x _)
