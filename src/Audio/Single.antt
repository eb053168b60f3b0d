-- ===== src/Audio/Single.antt =====
-- At most one camera is heard, and only during synchronized playback at normal speed.
use mathlib.Core.Path.{subst, ap₂}
use mathlib.Core.Option.{some-injective}
use cctv_timeline_viewer_cor.Base.{
  Bool-cases, get_elem?, any, ℕ, zero, suc, ◌≡◌, refl, sym, ap, ◌∙◌, inl, inr, Bool, true, false,
  not, ◌||◌, Option, none, some, List, [], ◌∷◌, map, arith,
}
use cctv_timeline_viewer_cor.Audio.{
  Playback, Video, Audio, still_selected, may_sound, mute, only_first, sync,
}

-- A video that is not muted is the only one, and may sound.
abbrev pub IsSingle : (Video → Bool) → List Video → Type 0
IsSingle test videos =
    (i : ℕ) (v : Video)
    → get_elem? videos i ≡ some v
    → v.muted ≡ false
    → (test v ≡ true)
      × ((j : ℕ) (w : Video) → get_elem? videos j ≡ some w → w.muted ≡ false → i ≡ j)

map-muted :
    (videos : List Video) (j : ℕ) (w : Video)
    → get_elem? (map {A = Video} mute videos) j ≡ some w
    → w.muted ≡ true
map-muted [] j w e = absurd (ground arith)
map-muted (v ∷ videos) zero w e = ap (λ (x : Video). x.muted) (sym (some-injective _ _ e))
map-muted (v ∷ videos) (suc j) w e = map-muted videos j w e

-- A test that does not read whether a video is muted.
abbrev pub Ignores : (Video → Bool) → Type 0
Ignores test = (v : Video) (b : Bool) → test (record v { muted = b }) ≡ test v

pub may_sound-Ignores :
    (state : Playback) (selected : Option ℕ) → Ignores (may_sound state selected)
unfolding may_sound
may_sound-Ignores state none v b = refl
may_sound-Ignores state (some camera) v b = refl

heard_here :
    (test : Video → Bool) (v : Video) (videos : List Video)
    → Ignores test
    → test v ≡ true
    → IsSingle test ((record v { muted = false }) ∷ map {A = Video} mute videos)
heard_here test v videos ignores here zero w e h = (
  subst (λ x. test x ≡ true) (some-injective _ _ e) (ignores v false ∙ here),
  λ j u f k.
      elim j
          as (λ n.
            get_elem? ((record v { muted = false }) ∷ map {A = Video} mute videos) n ≡ some u
            → 0 ≡ n) [
              | zero ↦ λ g. refl
              | suc n ↦ λ g. absurd (ground (arith, map-muted videos n u g, k))
            ]
        f,
)
heard_here test v videos ignores here (suc i) w e h =
    absurd (ground (arith, map-muted videos i w e, h))

heard_later :
    (test : Video → Bool) (v : Video) (videos : List Video)
    → IsSingle test videos
    → IsSingle test (mute v ∷ videos)
heard_later test v videos single zero w e h =
    absurd (ground (arith, ap (λ (x : Video). x.muted) (some-injective _ _ e), h))
heard_later test v videos single (suc i) w e h = (
  (single i w e h).0,
  λ j u f k.
      elim j as (λ n. get_elem? (mute v ∷ videos) n ≡ some u → suc i ≡ n) [
        | zero ↦ λ g. absurd (ground (arith, ap (λ (x : Video). x.muted) (some-injective _ _ g), k))
        | suc n ↦ λ g. ap suc ((single i w e h).1 n u g k)
      ]
        f,
)

pub mute_twice :
    (videos : List Video)
    → map {A = Video} mute (map {A = Video} mute videos) ≡ map {A = Video} mute videos
mute_twice [] = refl
mute_twice (v ∷ videos) = ap (λ vs. mute v ∷ vs) (mute_twice videos)

any-mute :
    (test : Video → Bool)
    → Ignores test
    → (videos : List Video) → any test (map {A = Video} mute videos) ≡ any test videos
any-mute test ignores [] = refl
any-mute test ignores (v ∷ videos) =
    ap₂ (λ a b. a || b) (ignores v true) (any-mute test ignores videos)

none_heard : (videos : List Video) → any (λ v. not v.muted) (map {A = Video} mute videos) ≡ false
none_heard [] = refl
none_heard (v ∷ videos) = none_heard videos

module _ (test : Video → Bool) (ignores : Ignores test) where
  only_first-IsSingle : (videos : List Video) → IsSingle test (only_first test videos)
  unfolding only_first
  only_first-IsSingle [] = λ i v e h. absurd (ground arith)
  only_first-IsSingle (v ∷ videos) = elim (Bool-cases (test v)) [
    | inl here ↦ rw here (heard_here test v videos ignores here)
    | inr later ↦
        rw later (heard_later test v (only_first test videos) (only_first-IsSingle videos))
  ]

  pub only_first_twice :
      (videos : List Video) → only_first test (only_first test videos) ≡ only_first test videos
  unfolding only_first
  only_first_twice [] = refl
  only_first_twice (v ∷ videos) = elim (Bool-cases (test v)) [
    | inl here ↦ rw here (
        rw (ignores v false ∙ here)
          (ap (λ vs. (record v { muted = false }) ∷ vs) (mute_twice videos)))
    | inr later ↦
        rw later (rw (ignores v true ∙ later) (ap (λ vs. mute v ∷ vs) (only_first_twice videos)))
  ]

  pub any-only_first :
      (q : Video → Bool)
      → Ignores q
      → (videos : List Video) → any q (only_first test videos) ≡ any q videos
  unfolding only_first
  any-only_first q same [] = refl
  any-only_first q same (v ∷ videos) = elim (Bool-cases (test v)) [
    | inl here ↦ rw here (ap₂ (λ a b. a || b) (same v false) (any-mute q same videos))
    | inr later ↦ rw later (ap₂ (λ a b. a || b) (same v true) (any-only_first q same videos))
  ]

  heard-only_first :
      (videos : List Video) → any (λ v. not v.muted) (only_first test videos) ≡ any test videos
  unfolding only_first
  heard-only_first [] = refl
  heard-only_first (v ∷ videos) = elim (Bool-cases (test v)) [
    | inl here ↦ rw here refl
    | inr later ↦ rw later (heard-only_first videos)
  ]

-- After `sync` a video that is heard is the only one, shows the selected camera and may sound: the
-- speed is 1, playback runs and is not buffering, nothing is hidden, and the video neither seeks,
-- failed, warms up, is held nor buffers. One is heard exactly where some video may sound.
pub sync-IsSingle :
    (state : Playback) (audio : Audio)
    → IsSingle (may_sound state (sync state audio).selected) (sync state audio).videos
      × (any (λ v. not v.muted) (sync state audio).videos
          ≡ any (may_sound state (sync state audio).selected) audio.videos)
unfolding sync
sync-IsSingle state audio =
    let test : Video → Bool = may_sound state (still_selected state audio) in
    let ignores : Ignores test = may_sound-Ignores state (still_selected state audio) in
    (only_first-IsSingle test ignores audio.videos, heard-only_first test ignores audio.videos)
