-- ===== src/Player/Clock/Deadline.antt =====
-- The deadline of a recovery: thirty seconds after its start it ends or begins anew, unless data comes in.
use cctv_timeline_viewer_cor.Base.{
  if◌then◌else◌, ◌∈◌, if_all, if_cases, ℕ, ◌≡◌, refl, ◌⊎◌, inl, inr, Bool, true, false, not, ◌&&◌,
  ◌||◌, Option, none, some, List, [], ◌∷◌, arith,
}
use cctv_timeline_viewer_cor.Player.Video.{Video, is_active}
use cctv_timeline_viewer_cor.Player.World.{World, Ledger}
use cctv_timeline_viewer_cor.Player.Ready.{native_delivery_active, recovery_video_failed}
use cctv_timeline_viewer_cor.Player.Source.{fail_video}
use cctv_timeline_viewer_cor.Player.Barrier.{Player, finish_recovery, enter_buffering_barrier}
use cctv_timeline_viewer_cor.Player.Barrier.Silent.{enter_buffering_barrier-Barred}
use cctv_timeline_viewer_cor.Player.Clock.{expire_each, any_active, expire}

-- An active video that is late, but for which data still comes in.
abbrev pub Receives : World → Video → Type 0
Receives w v =
    (is_active v ≡ true)
    × ((recovery_video_failed w v).0 ≡ true)
    × (native_delivery_active w (recovery_video_failed w v).1 ≡ true)

three : (a b c : Bool) → (a && b && c) ≡ true → (a ≡ true) × (b ≡ true) × (c ≡ true)
three a b c e = ground (arith, e)

either : (a b : Bool) → (a || b) ≡ true → (a ≡ true) ⊎ (b ≡ true)
either a b e = ground (arith, e)

-- What is done to the first video of the loop.
abbrev one_expired : World → Ledger → Video → Ledger × Video
one_expired w l v =
    let late : Bool × Video = recovery_video_failed w v in
    if is_active v
    then (if late.0 && not (native_delivery_active w late.1)
        then fail_video w l late.1
        else (l, late.1))
    else (l, v)

expire_each-Receives :
    (w : World) (videos : List Video) (l : Ledger)
    → (expire_each w l videos).0.1 ≡ true
    → (v : Video) × (v ∈ videos) × Receives w v
unfolding expire_each
expire_each-Receives w [] l h = absurd (ground (arith, h))
expire_each-Receives w (v ∷ videos) l h = elim (either _ _ h) [
  | inl e ↦ (v, inl refl, three _ _ _ e)
  | inr e ↦ let (u, m, r) = expire_each-Receives w videos (one_expired w l v).0 e in (u, inr m, r)
]

-- What becomes of a recovery at its deadline.
abbrev pub Decided : Player → Player → Type 0
Decided p q =
    (q.world.recovery_started ≡ none)
    ⊎ (q.world.recovery_started ≡ some p.world.now)
    ⊎ ((q.world.recovery_started ≡ p.world.recovery_started)
        × (v : Video) × (v ∈ p.videos)
        × Receives p.world v)

no_fault : (a b : Bool) → (a || not b) ≡ false → b ≡ true
no_fault a b e = ground (arith, e)

started :
    (source : Option ℕ) (p : Player)
    → p.world.playing ≡ true
    → p.world.recovery_started ≡ none
    → (enter_buffering_barrier source p).world.recovery_started ≡ some p.world.now
started source p playing e = (enter_buffering_barrier-Barred source p playing).1 e

-- At its deadline a recovery ends, or starts anew with the time of now, unless it goes on for an active
-- video that is late, but for which data still comes in.
pub expire-Decided : (p : Player) → p.world.playing ≡ true → Decided p (expire p)
unfolding expire finish_recovery
expire-Decided p playing =
    let checked : (Bool × Bool) × Ledger × List Video = expire_each p.world p.ledger p.videos in
    let after : Player = record p { ledger = checked.1; videos = checked.2 } in
    let ended : Player = finish_recovery after in
    if_cases (Decided p) (checked.0.0 || not checked.0.1)
      {x = if any_active ended.videos then enter_buffering_barrier none ended else ended}
      {y = after}
      (λ e.
        if_all (Decided p) (any_active ended.videos) {x = enter_buffering_barrier none ended}
          {y = ended} (inr (inl (started none ended playing refl))) (inl refl))
      (λ e.
        let (v, m, r) = expire_each-Receives p.world p.videos p.ledger (no_fault _ _ e) in
        inr (inr (refl, v, m, r)))
