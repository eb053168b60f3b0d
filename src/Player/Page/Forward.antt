-- ===== src/Player/Page/Forward.antt =====
-- The clock and the recordings: it goes on where one is displayed, and jumps forward where none is.
use mathlib.Core.Path.{subst}
use cctv_timeline_viewer_cor.Base.{
  ◌==◌, leb→le, length, any, Extended, lte, minus_infinity, finite, plus_infinity, if_all, if_cases,
  ℕ, ◌+◌, ◌≤◌, ◌≡◌, refl, sym, ap, ◌∙◌, ◌⊎◌, inl, inr, Bool, true, false, not, ◌&&◌, Option, none,
  some, List, arith,
}
use cctv_timeline_viewer_cor.Recording.{CameraTrack, Timeline}
use cctv_timeline_viewer_cor.Player.World.{time_number}
use cctv_timeline_viewer_cor.Player.Barrier.{Player, finish_recovery}
use cctv_timeline_viewer_cor.Player.Barrier.Stands.{
  SamePage, same_page, entered-SamePage, time_of_SamePage,
}
use cctv_timeline_viewer_cor.Player.Page.{
  render_players, stop_playback, next_recording_start, records_now, set_clock, transition,
  needs_warmup, follow, jump_or_stop, reconcile_in, reconcile_playback_position,
}
use cctv_timeline_viewer_cor.Player.Page.Next.{IsLater, next_recording_start_lem}

follow-SamePage : (p : Player) → SamePage p (follow p)
unfolding follow render_players
follow-SamePage p =
    if_all (SamePage p) (not (any (transition p) p.world.displayed)) (same_page p _ refl refl refl)
      (if_all (SamePage p) (p.world.playing && any (needs_warmup p) p.world.displayed)
        (entered-SamePage p none _ (same_page p _ refl refl refl))
        (same_page p (render_players false p) refl refl refl))

stop_playback-time :
    (p : Player) → (stop_playback false p).world.current_time ≡ p.world.current_time
unfolding stop_playback finish_recovery
stop_playback-time p = refl

-- Where the clock is after a step from a time: where it was, or just past the earliest later start of
-- a displayed recording, if none is displayed at the time.
abbrev pub Forward : Player → Timeline → ℕ → Player → Type 0
Forward p timeline t q =
    (q.world.current_time ≡ some t)
    ⊎ ((start : ℕ) × (records_now p ≡ false)
        × (q.world.current_time ≡ some (start + 1))
        × IsLater p.world.displayed t timeline.cameras start
        × ((other : ℕ) → IsLater p.world.displayed t timeline.cameras other → start ≤ other))

abbrev start_of : Extended → ℕ
start_of minus_infinity = 0
start_of (finite n) = n
start_of plus_infinity = 0

abbrev is_finite : Extended → Bool
is_finite minus_infinity = false
is_finite (finite n) = true
is_finite plus_infinity = false

next_known :
    (displayed : List ℕ) (t : ℕ) (cameras : List CameraTrack) (start : ℕ)
    → next_recording_start displayed t cameras plus_infinity ≡ finite start
    → IsLater displayed t cameras start
      × ((other : ℕ) → IsLater displayed t cameras other → start ≤ other)
next_known displayed t cameras start q =
    let (least, found) = next_recording_start_lem displayed t cameras in
    (
      elim found [
        | inl e ↦ absurd (ground (arith, ap is_finite (sym e ∙ q)))
        | inr (s, later, e) ↦ subst (IsLater displayed t cameras) (ap start_of (sym e ∙ q)) later
      ],
      λ other later. leb→le _ _ (subst (λ n. lte n (finite other) ≡ true) q (least other later)),
    )

jump-Forward :
    (p : Player) (timeline : Timeline) (t : ℕ)
    → p.world.current_time ≡ some t
    → records_now p ≡ false
    → (next : Extended)
    → next_recording_start p.world.displayed t timeline.cameras plus_infinity ≡ next
    → Forward p timeline t (jump_or_stop p next)
jump-Forward p timeline t e none_now minus_infinity q = inl (stop_playback-time p ∙ e)
jump-Forward p timeline t e none_now plus_infinity q = inl (stop_playback-time p ∙ e)
jump-Forward p timeline t e none_now (finite start) q =
    let (later, first) = next_known p.world.displayed t timeline.cameras start q in
    let jumped : Player = set_clock (start + 1) p in
    inr (
      start,
      none_now,
      time_of_SamePage jumped (follow jumped) (follow-SamePage jumped),
      later,
      first,
    )

reconcile_in-Forward :
    (p : Player) (timeline : Timeline) (t : ℕ)
    → p.world.current_time ≡ some t
    → Forward p timeline t (reconcile_in p (some timeline) (some t))
reconcile_in-Forward p timeline t e =
    let next : Extended = next_recording_start p.world.displayed t timeline.cameras plus_infinity in
    if_all (Forward p timeline t) (length p.world.displayed == 0) (inl (stop_playback-time p ∙ e)) (
      if_cases (Forward p timeline t) (records_now p)
        (λ now. inl (time_of_SamePage p (follow p) (follow-SamePage p) ∙ e))
        (λ none_now. jump-Forward p timeline t e none_now next refl))

reconcile_in-forward :
    (p : Player) (o : Option Timeline) (u : Option ℕ)
    → p.world.current_time ≡ u
    → time_number p.world.current_time ≤ time_number (reconcile_in p o u).world.current_time
reconcile_in-forward p none u e = omega arith
reconcile_in-forward p (some timeline) none e = omega arith
reconcile_in-forward p (some timeline) (some t) e = elim (reconcile_in-Forward p timeline t e) [
  | inl stays ↦ omega (arith, ap time_number stays, ap time_number e)
  | inr (start, none_now, after, (c, s, m, d, n, h, q), least) ↦
      omega (arith, ap time_number after, ap time_number e, h, q)
]

-- After the step of the clock to the recordings, it stands where it was, or, where no displayed
-- camera has a recording at its time, just after the earliest later start of a displayed recording.
pub reconcile_playback_position-Forward :
    (p : Player) (timeline : Timeline) (t : ℕ)
    → p.world.timeline ≡ some timeline
    → p.world.current_time ≡ some t
    → Forward p timeline t (reconcile_playback_position p)
unfolding reconcile_playback_position
reconcile_playback_position-Forward p timeline t d e =
    subst (λ o. Forward p timeline t (reconcile_in p o p.world.current_time)) (sym d)
      (subst (λ u. Forward p timeline t (reconcile_in p (some timeline) u)) (sym e)
        (reconcile_in-Forward p timeline t e))

-- So the clock is never set back.
pub reconcile_playback_position-forward :
    (p : Player)
    → time_number p.world.current_time
      ≤ time_number (reconcile_playback_position p).world.current_time
unfolding reconcile_playback_position
reconcile_playback_position-forward p =
    reconcile_in-forward p p.world.timeline p.world.current_time refl
