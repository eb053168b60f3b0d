-- ===== src/Trace/Counts.antt =====
-- The buckets lose no event, and put each into the bucket of its key.
use Prim.Native.String.{String}
use mathlib.Core.Path.{ap₂}
use text.Mathlib.Text.{◌==◌ as str_eq}
use text.Mathlib.TextEquality.{eq_iff}
use cctv_timeline_viewer_cor.Base.{
  ◌/◌, ◌==◌, ==_iff, if◌then◌else◌, Bool, true, ◌&&◌, length, if_all, if_cases, ℕ, suc, ◌+◌, ◌≡◌,
  refl, false, List, [], ◌∷◌, arith,
}
use cctv_timeline_viewer_cor.Player.Barrier.Every.{Every}
use cctv_timeline_viewer_cor.Trace.{
  Entry, Bucket, same_labels, same_entry, counted, add, add_all, drain,
}

abbrev pub count_of : List Bucket → ℕ
count_of [] = 0
count_of (b ∷ buckets) = b.count + count_of buckets

-- No bucket has the key of an earlier one.
abbrev pub Distinct : List Bucket → Type 0
Distinct [] = Unit
Distinct (b ∷ buckets) = Every (λ c. same_entry b.first c.first ≡ false) buckets × Distinct buckets

add-count : (e : Entry) (buckets : List Bucket) → count_of (add e buckets) ≡ suc (count_of buckets)
unfolding add
add-count e [] = refl
add-count e (b ∷ buckets) =
    if_all (λ (bs : List Bucket). count_of bs ≡ suc (b.count + count_of buckets))
      (same_entry b.first e) {x = counted e b ∷ buckets} {y = b ∷ add e buckets} (omega arith)
      (omega (arith, add-count e buckets))

-- What holds of the first entries holds after an addition, if it holds of the new entry.
add-Every :
    (P : Entry → Type 0) (e : Entry) (buckets : List Bucket)
    → P e
    → Every (λ b. P b.first) buckets
    → Every (λ b. P b.first) (add e buckets)
unfolding add
add-Every P e [] p h = (p, tt)
add-Every P e (b ∷ buckets) p h =
    if_all (Every (λ (c : Bucket). P c.first)) (same_entry b.first e) {x = counted e b ∷ buckets}
      {y = b ∷ add e buckets} h (h.0, add-Every P e buckets p h.1)

add-Distinct : (e : Entry) (buckets : List Bucket) → Distinct buckets → Distinct (add e buckets)
unfolding add
add-Distinct e [] d = (tt, tt)
add-Distinct e (b ∷ buckets) d =
    if_cases Distinct (same_entry b.first e) {x = counted e b ∷ buckets} {y = b ∷ add e buckets}
      (λ same. d)
      (λ other. (
        add-Every (λ f. same_entry b.first f ≡ false) e buckets other d.0,
        add-Distinct e buckets d.1,
      ))

all-kept :
    (entries : List Entry) (buckets : List Bucket)
    → Distinct buckets
    → (count_of (add_all entries buckets) ≡ length entries + count_of buckets)
      × Distinct (add_all entries buckets)
unfolding add_all
all-kept [] buckets d = (omega arith, d)
all-kept (e ∷ entries) buckets d =
    let (n, k) = all-kept entries (add e buckets) (add-Distinct e buckets d) in
    (omega (arith, n, add-count e buckets), k)

-- How many events have the key of an entry, and how many the buckets of that key count.
abbrev pub events_of : Entry → List Entry → ℕ
events_of e [] = 0
events_of e (f ∷ entries) =
    if same_entry f e then suc (events_of e entries) else events_of e entries

abbrev pub counts_of : Entry → List Bucket → ℕ
counts_of e [] = 0
counts_of e (b ∷ buckets) =
    if same_entry b.first e then b.count + counts_of e buckets else counts_of e buckets

both : (a b : Bool) → (a && b) ≡ true → (a ≡ true) × (b ≡ true)
both a b h = ground (arith, h)

-- The sums of the counts, where the bucket is the one of the new entry and where it is not.
hit :
    (a c : Bool) (n m : ℕ)
    → a ≡ c
    → (if a then n + 1 + m else m)
      ≡ (if c then suc (if a then n + m else m) else (if a then n + m else m))
hit a c n m h = ground (arith, h)

miss :
    (a c : Bool) (n m k : ℕ)
    → k ≡ (if c then suc m else m)
    → (if a then n + k else k)
      ≡ (if c then suc (if a then n + m else m) else (if a then n + m else m))
miss a c n m k h = ground (arith, h)

added :
    (c : Bool) (n m k r : ℕ)
    → k ≡ (if c then suc m else m)
    → r ≡ n + k
    → r ≡ (if c then suc n else n) + m
added c n m k r h g = ground (arith, h, g)

same_labels-≡ : (xs ys : List String) → same_labels xs ys ≡ true → xs ≡ ys
same_labels-≡ [] [] h = refl
same_labels-≡ [] (y ∷ ys) h = absurd (ground (arith, h))
same_labels-≡ (x ∷ xs) [] h = absurd (ground (arith, h))
same_labels-≡ (x ∷ xs) (y ∷ ys) h =
    let (one, others) = both (str_eq x y) (same_labels xs ys) h in
    ap₂ (λ z zs. z ∷ zs) ((eq_iff x y).0 one) (same_labels-≡ xs ys others)

-- Entries with the same key have it in common with the same entries.
same_key : (b f e : Entry) → same_entry b f ≡ true → same_entry b e ≡ same_entry f e
same_key b f e h =
    let (wall, labels) = both (b.wall / 1000 == f.wall / 1000) (same_labels b.labels f.labels) h in
    ap₂ (λ x ls. (x == e.wall / 1000) && same_labels ls e.labels)
      ((==_iff (b.wall / 1000) (f.wall / 1000)).0 wall) (same_labels-≡ b.labels f.labels labels)

-- An addition counts one more for the keys that are the new entry's, and for no other.
add-counts_of :
    (e f : Entry) (buckets : List Bucket)
    → counts_of e (add f buckets)
      ≡ (if same_entry f e then suc (counts_of e buckets) else counts_of e buckets)
unfolding add
add-counts_of e f [] = refl
add-counts_of e f (b ∷ buckets) =
    if_cases
      (λ (bs : List Bucket).
        counts_of e bs
        ≡ (if same_entry f e then suc (counts_of e (b ∷ buckets)) else counts_of e (b ∷ buckets)))
      (same_entry b.first f) {x = counted f b ∷ buckets} {y = b ∷ add f buckets}
      (λ t.
        hit (same_entry b.first e) (same_entry f e) b.count (counts_of e buckets)
          (same_key b.first f e t))
      (λ o.
        miss (same_entry b.first e) (same_entry f e) b.count (counts_of e buckets)
          (counts_of e (add f buckets)) (add-counts_of e f buckets))

add_all-counts_of :
    (e : Entry) (entries : List Entry) (buckets : List Bucket)
    → counts_of e (add_all entries buckets) ≡ events_of e entries + counts_of e buckets
unfolding add_all
add_all-counts_of e [] buckets = omega arith
add_all-counts_of e (f ∷ entries) buckets =
    added (same_entry f e) (events_of e entries) (counts_of e buckets) (counts_of e (add f buckets))
      (counts_of e (add_all entries (add f buckets))) (add-counts_of e f buckets)
      (add_all-counts_of e entries (add f buckets))

-- Of any events that are added to empty buckets, the batch that is drained counts each once, in buckets
-- with different keys, and nothing is left; and for every key, the bucket with this key counts
-- just the events that have it.
pub drain-Distinct :
    (entries : List Entry)
    → (count_of (drain (add_all entries [])).0 ≡ length entries)
      × Distinct (drain (add_all entries [])).0
      × ((drain (add_all entries [])).1 ≡ [])
      × ((e : Entry) → counts_of e (drain (add_all entries [])).0 ≡ events_of e entries)
unfolding drain
drain-Distinct entries =
    let (n, k) = all-kept entries [] tt in
    (omega (arith, n), k, refl, λ e. omega (arith, add_all-counts_of e entries []))
