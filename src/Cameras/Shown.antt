-- ===== src/Cameras/Shown.antt =====
-- The hotspot layout shows the visible cameras, each once, the promoted one first.
use mathlib.Core.Path.{ap₂}
use mathlib.Core.Option.{some-injective}
use cctv_timeline_viewer_cor.Base.{
  ◌==◌, if◌then◌else◌, ==_iff, Bool-cases, get_elem?, filter, ℕ, ◌≤◌, ◌≡◌, refl, ap, ◌∙◌, inl, inr,
  Bool, true, false, not, ◌||◌, Option, none, some, List, [], ◌∷◌, arith,
}
use cctv_timeline_viewer_cor.Hotspot.{includes, normalized_order, promoted_order}
use cctv_timeline_viewer_cor.Hotspot.Promoted.{
  count, IsDistinct, count-filter, includes-count, normalized-count, promoted_order-count,
}
use cctv_timeline_viewer_cor.Cameras.{
  Camera, Cameras, camera_ids, visible_cameras, camera_of, in_order, hotspot_cameras, is_focused,
  promote_hotspot_camera,
}

-- A camera is found under its id, if there is one.
abbrev pub IsOf : List Camera → ℕ → Option Camera → Type 0
IsOf cameras id none = includes (camera_ids cameras) id ≡ false
IsOf cameras id (some c) = (c.id ≡ id) × (includes (camera_ids cameras) id ≡ true)

IsOf-more :
    (c : Camera) (cameras : List Camera) (id : ℕ) (r : Option Camera)
    → IsOf cameras id r
    → IsOf
        (c ∷ cameras)
        id
        (elim r [ some later ↦ some later | none ↦ if c.id == id then some c else none ])
IsOf-more c cameras id none found = elim (Bool-cases (c.id == id)) [
  | inl same ↦ rw same ((==_iff c.id id).0 same, ground (arith, same))
  | inr other ↦ rw other (ground (arith, other, found))
]
IsOf-more c cameras id (some d) found = (found.0, ground (arith, found))

pub camera_of-IsOf : (cameras : List Camera) (id : ℕ) → IsOf cameras id (camera_of cameras id)
unfolding camera_of
camera_of-IsOf [] id = refl
camera_of-IsOf (c ∷ cameras) id =
    IsOf-more c cameras id (camera_of cameras id) (camera_of-IsOf cameras id)

in_order-next :
    (cameras : List Camera) (id : ℕ) (order : List ℕ) (r : Option Camera)
    → IsOf cameras id r
    → camera_ids (in_order cameras order) ≡ filter (includes (camera_ids cameras)) order
    → camera_ids (elim r [ some c ↦ c ∷ in_order cameras order | none ↦ in_order cameras order ])
      ≡ filter (includes (camera_ids cameras)) (id ∷ order)
in_order-next cameras id order none found rest = rw found rest
in_order-next cameras id order (some c) found rest =
    rw (found.1) (ap₂ (λ a b. a ∷ b) (found.0) rest)

ids-in_order :
    (cameras : List Camera) (order : List ℕ)
    → camera_ids (in_order cameras order) ≡ filter (includes (camera_ids cameras)) order
unfolding in_order
ids-in_order cameras [] = refl
ids-in_order cameras (id ∷ order) =
    in_order-next cameras id order (camera_of cameras id) (camera_of-IsOf cameras id)
      (ids-in_order cameras order)

ids-filter-le :
    (p : Camera → Bool) (cameras : List Camera) (id : ℕ)
    → count (camera_ids (filter p cameras)) id ≤ count (camera_ids cameras) id
ids-filter-le p [] id = omega arith
ids-filter-le p (c ∷ cameras) id = elim (Bool-cases (p c)) [
  | inl keep ↦ rw keep (omega (arith, ids-filter-le p cameras id))
  | inr drop ↦ rw drop (omega (arith, ids-filter-le p cameras id))
]

visible-IsDistinct :
    (s : Cameras) → IsDistinct (camera_ids s.cameras) → IsDistinct (camera_ids (visible_cameras s))
unfolding visible_cameras
visible-IsDistinct s once id =
    omega (arith, ids-filter-le (λ c. includes s.visible_ids c.id) s.cameras id, once id)

in_order-count :
    (order : List ℕ) (shown : List Camera)
    → IsDistinct order
    → IsDistinct (camera_ids shown)
    → (id : ℕ)
    → count (camera_ids (in_order shown (normalized_order order (camera_ids shown)))) id
      ≡ count (camera_ids shown) id
in_order-count order shown once once_shown id =
    let ids = camera_ids shown in
    let order_next = normalized_order order ids in
    rw (ids-in_order shown order_next) (
      ground (
        arith,
        count-filter (includes ids) order_next id,
        normalized-count order ids once once_shown id,
        includes-count ids id,
      ))

in_order-first :
    (shown : List Camera) (order : List ℕ) (id : ℕ)
    → includes (camera_ids shown) id ≡ true
    → get_elem? order 0 ≡ some id
    → get_elem? (camera_ids (in_order shown (normalized_order order (camera_ids shown)))) 0
      ≡ some id
in_order-first shown [] id valid first = absurd (ground arith)
in_order-first shown (x ∷ order) id valid first =
    let here : includes (camera_ids shown) x ≡ true =
      ap (includes (camera_ids shown)) (some-injective _ _ first) ∙ valid in
    ap (λ xs. get_elem? xs 0) (ids-in_order shown (normalized_order (x ∷ order) (camera_ids shown)))
    ∙ rw (here, here) first

-- For cameras with different ids and a hotspot order without repetitions, the hotspot layout has each
-- visible camera once and no other, and keeps an order without repetitions.
pub hotspot_cameras-count :
    (s : Cameras)
    → IsDistinct (camera_ids s.cameras)
    → IsDistinct s.hotspot_order
    → ((id : ℕ)
        → count (camera_ids (hotspot_cameras s).1) id ≡ count (camera_ids (visible_cameras s)) id)
      × IsDistinct (hotspot_cameras s).0.hotspot_order
unfolding hotspot_cameras
hotspot_cameras-count s once order_once = (
  in_order-count s.hotspot_order (visible_cameras s) order_once (visible-IsDistinct s once),
  λ id. omega (
    arith,
    normalized-count s.hotspot_order (camera_ids (visible_cameras s)) order_once
        (visible-IsDistinct s once) id,
    visible-IsDistinct s once id,
  ),
)

-- A camera that is visible comes first in the hotspot layout after it was promoted there, without
-- focus and by hand or not; all visible cameras are still shown, each once.
pub promote-hotspot_cameras :
    (s : Cameras) (id : ℕ) (manual : Bool)
    → IsDistinct (camera_ids s.cameras)
    → IsDistinct s.hotspot_order
    → s.hotspot_layout ≡ true
    → s.focus ≡ none
    → includes (camera_ids (visible_cameras s)) id ≡ true
    → (get_elem? (camera_ids (hotspot_cameras (promote_hotspot_camera id manual s)).1) 0 ≡ some id)
      × ((i : ℕ)
          → count (camera_ids (hotspot_cameras (promote_hotspot_camera id manual s)).1) i
            ≡ count (camera_ids (visible_cameras s)) i)
unfolding hotspot_cameras promote_hotspot_camera visible_cameras
promote-hotspot_cameras s id manual once order_once layout focus valid =
    let shown : List Camera = visible_cameras s in
    let once_shown : IsDistinct (camera_ids shown) = visible-IsDistinct s once in
    let promoted =
      promoted_order-count s.hotspot_order (camera_ids shown) order_once once_shown id in
    let free : (not s.hotspot_layout || is_focused s.focus) ≡ false =
      ground (arith, layout, ap is_focused focus) in
    rw free (
      in_order-first shown (promoted_order s.hotspot_order id (camera_ids shown)) id valid
          (promoted.1 valid),
      in_order-count (promoted_order s.hotspot_order id (camera_ids shown)) shown
          (λ i. omega (arith, promoted.0 i, once_shown i)) once_shown,
    )
