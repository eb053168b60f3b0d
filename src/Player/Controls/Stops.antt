-- ===== src/Player/Controls/Stops.antt =====
-- Stopping: nothing plays on, and a page that goes away gives up every session.
use mathlib.Core.Path.{subst}
use cctv_timeline_viewer_cor.Base.{
  if_all, option_all, Option-cases, ◌∈◌, ℕ, ◌≡◌, refl, sym, ◌⊎◌, inl, inr, Bool, true, false,
  Option, none, some, List, [], ◌∷◌,
}
use cctv_timeline_viewer_cor.Player.Video.{Video}
use cctv_timeline_viewer_cor.Player.World.{World, Ledger}
use cctv_timeline_viewer_cor.Player.Source.{pause_video, cancelled_source, cancel_hls_source}
use cctv_timeline_viewer_cor.Player.Barrier.{Player, each, finish_recovery}
use cctv_timeline_viewer_cor.Player.Barrier.Every.{Every, each-Every}
use cctv_timeline_viewer_cor.Player.Page.{stop_video, stop_playback}

-- A video that stands still, and is silent.
abbrev pub Still : Video → Type 0
Still v = (v.paused ≡ true) × (v.muted ≡ true) × (v.warming ≡ false) × (v.sync_held ≡ false)

cancelled_source-Still :
    (v : Video) → v.warming ≡ false → v.sync_held ≡ false → Still (cancelled_source v)
cancelled_source-Still v a b = option_all Still v.job (refl, refl, a, b) (λ j. (refl, refl, a, b))

stop_video-Still :
    (immediate : Bool) (w : World) (l : Ledger) (v : Video) → Still (stop_video immediate w l v).1
unfolding stop_video cancel_hls_source
stop_video-Still immediate w l v =
    let stopped : Video = record (pause_video (record v { warming = false; sync_held = false })) {
      preload_auto = w.preload_auto;
    } in
    if_all (λ (r : Ledger × Video). Still (r.1)) _ (cancelled_source-Still stopped refl refl)
      (refl, refl, refl, refl)

-- The sessions of the videos.
abbrev pub jobs_of : List Video → List ℕ
jobs_of [] = []
jobs_of (v ∷ videos) = elim (v.job) [ none ↦ jobs_of videos | some j ↦ j ∷ jobs_of videos ]

stop_video-released :
    (w : World) (l : Ledger) (v : Video)
    → (stop_video true w l v).0.released
      ≡ (elim (v.job) [ none ↦ l.released | some j ↦ j ∷ l.released ])
unfolding stop_video cancel_hls_source
stop_video-released w l v = elim (Option-cases v.job) [ inl e ↦ rw e refl | inr (j, e) ↦ rw e refl ]

next_release :
    (w : World) (l : Ledger) (v : Video) (videos : List Video) (j : ℕ) (o : Option ℕ)
    → (stop_video true w l v).0.released ≡ (elim o [ none ↦ l.released | some k ↦ k ∷ l.released ])
    → (j ∈ l.released) ⊎ (j ∈ (elim o [ none ↦ jobs_of videos | some k ↦ k ∷ jobs_of videos ]))
    → (j ∈ (stop_video true w l v).0.released) ⊎ (j ∈ jobs_of videos)
next_release w l v videos j none e (inl m) = inl (subst (λ r. j ∈ r) (sym e) m)
next_release w l v videos j none e (inr m) = inr m
next_release w l v videos j (some k) e (inl m) = inl (subst (λ r. j ∈ r) (sym e) (inr m))
next_release w l v videos j (some k) e (inr (inl m)) = inl (subst (λ r. j ∈ r) (sym e) (inl m))
next_release w l v videos j (some k) e (inr (inr m)) = inr m

stop_each-released :
    (w : World) (l : Ledger) (videos : List Video) (j : ℕ)
    → (j ∈ l.released) ⊎ (j ∈ jobs_of videos)
    → j ∈ (each (stop_video true) w l videos).0.released
unfolding each
stop_each-released w l [] j (inl m) = m
stop_each-released w l [] j (inr m) = absurd m
stop_each-released w l (v ∷ videos) j h =
    stop_each-released w (stop_video true w l v).0 videos j
      (next_release w l v videos j v.job (stop_video-released w l v) h)

-- After a stop playback is off, with no barrier, no recovery and no frame asked for; the clock stands;
-- and every video is paused, muted, not warming and not held.
pub stop_playback-Still :
    (immediate : Bool) (p : Player)
    → let q = stop_playback immediate p in
      (q.world.playing ≡ false)
      × (q.world.was_buffering ≡ false)
      × (q.world.recovery_started ≡ none)
      × (q.ticking ≡ false)
      × (q.world.current_time ≡ p.world.current_time)
      × Every Still q.videos
unfolding stop_playback finish_recovery
stop_playback-Still immediate p = (
  refl,
  refl,
  refl,
  refl,
  refl,
  each-Every Still (stop_video immediate) _ (stop_video-Still immediate _) _ _,
)

-- A page that goes away asks for the release of the session of each of its videos.
pub stop_playback-released :
    (p : Player) (j : ℕ) → j ∈ jobs_of p.videos → j ∈ (stop_playback true p).ledger.released
unfolding stop_playback finish_recovery
stop_playback-released p j m = stop_each-released _ p.ledger p.videos j (inr m)
