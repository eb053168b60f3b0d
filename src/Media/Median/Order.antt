-- ===== src/Media/Median/Order.antt =====
-- The order in which the players are looked at does not change the median.
use mathlib.Core.Path.{ap₂}
use mathlib.Core.Logic.{∥∥₁_elim}
use mathlib.Core.List.{Perm, Permᴰ}
use cctv_timeline_viewer_cor.Base.{
  ℕ, ◌≡◌, refl, sym, ap, ◌∙◌, Option, none, some, List, [], ◌∷◌, arith,
}
use cctv_timeline_viewer_cor.Media.Median.{finite_times, insert, sort, median_time}

insert-insert : (a b : ℕ) (ts : List ℕ) → insert a (insert b ts) ≡ insert b (insert a ts)
unfolding insert
insert-insert a b [] = ground arith
insert-insert a b (t ∷ ts) = ground (arith, insert-insert a b ts)

add_time : Option ℕ → List ℕ → List ℕ
add_time none ts = ts
add_time (some t) ts = insert t ts

sort-cons :
    (o : Option ℕ) (times : List (Option ℕ))
    → sort (finite_times (o ∷ times)) ≡ add_time o (sort (finite_times times))
unfolding sort finite_times add_time
sort-cons none times = refl
sort-cons (some t) times = refl

sort_twice :
    (o p : Option ℕ) (times : List (Option ℕ))
    → sort (finite_times (o ∷ p ∷ times)) ≡ add_time o (add_time p (sort (finite_times times)))
sort_twice o p times = sort-cons o (p ∷ times) ∙ ap (add_time o) (sort-cons p times)

add_time_comm :
    (o p : Option ℕ) (ts : List ℕ) → add_time o (add_time p ts) ≡ add_time p (add_time o ts)
unfolding add_time
add_time_comm none p ts = refl
add_time_comm (some t) none ts = refl
add_time_comm (some t) (some u) ts = insert-insert t u ts

perm-sort :
    {xs ys : List (Option ℕ)} → Permᴰ xs ys → sort (finite_times xs) ≡ sort (finite_times ys)
perm-sort Permᴰ.nil = refl
perm-sort (Permᴰ.cons {a} {b} {l₁} {l₂} e d) =
    sort-cons a l₁ ∙ ap₂ add_time e (perm-sort d) ∙ sym (sort-cons b l₂)
perm-sort (Permᴰ.swap {a} {b} {a'} {b'} {l} e f) =
    sort_twice a b l
    ∙ add_time_comm a b (sort (finite_times l))
    ∙ ap₂ (λ x y. add_time x (add_time y (sort (finite_times l)))) f e
    ∙ sym (sort_twice a' b' l)
perm-sort (Permᴰ.trans d d') = perm-sort d ∙ perm-sort d'

Option-ℕ-set : IsSet (Option ℕ)
Option-ℕ-set = hlevel

-- The median of the same times in another order is the same.
pub median_time_perm : {xs ys : List (Option ℕ)} → Perm xs ys → median_time xs ≡ median_time ys
unfolding median_time
median_time_perm {xs} {ys} p = ∥∥₁_elim p (Option-ℕ-set _ _) (λ d. rw (perm-sort d))
