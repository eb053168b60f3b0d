-- ===== src/Player/Clock/Tick/Advance.antt =====
-- The clock follows the videos: it is never put before the earliest of them.
use mathlib.Core.Path.{subst}
use cctv_timeline_viewer_cor.Base.{
  ltb, Option-cases, if_all, ℕ, ◌-◌, ◌≤◌, min, max, ◌≡◌, refl, sym, ap, inl, inr, Bool, true, false,
  Option, none, some, List, [], ◌∷◌, map, arith,
}
use cctv_timeline_viewer_cor.Media.Median.{median_time, finite_times}
use cctv_timeline_viewer_cor.Media.Median.Laws.{Between, median_time_bounds}
use cctv_timeline_viewer_cor.Player.World.{time_number}
use cctv_timeline_viewer_cor.Player.Ready.{playback_spread_limit}
use cctv_timeline_viewer_cor.Player.Barrier.{Player, enter_buffering_barrier}
use cctv_timeline_viewer_cor.Player.Page.{set_clock}
use cctv_timeline_viewer_cor.Player.Page.Forward.{reconcile_playback_position-forward}
use cctv_timeline_viewer_cor.Player.Sync.{
  Timed, least_time, greatest_time, synchronize_native_progress,
}
use cctv_timeline_viewer_cor.Player.Clock.Tick.{
  Phase, timed_videos, times_of, outlier, replace_all, advance, follow_videos, follow_wall,
  move_clock, stopped, stepped, buffering, alignment, drift, advanced,
}

least_time-some : (x : Timed) (timed : List Timed) → (m : ℕ) × (least_time (x ∷ timed) ≡ some m)
unfolding least_time
least_time-some x timed = elim (Option-cases (least_time timed)) [
  | inl e ↦ (x.1, rw e refl)
  | inr (t, e) ↦ (min x.1 t, rw e refl)
]

time-cons :
    (x : Timed) (timed : List Timed) (m : ℕ)
    → least_time timed ≡ some m
    → time_number (least_time (x ∷ timed)) ≡ min x.1 m
unfolding least_time
time-cons x timed m e = rw e refl

-- The times of the videos, one at least, lie between the first and the last of them.
times_of-Between :
    (x : Timed) (timed : List Timed) (lo hi : ℕ)
    → lo ≤ time_number (least_time (x ∷ timed))
    → greatest_time (x ∷ timed) ≤ hi
    → Between lo hi (finite_times (times_of (x ∷ timed)))
unfolding least_time greatest_time finite_times
times_of-Between x [] lo hi a b = (a, omega (arith, b), tt)
times_of-Between x (y ∷ timed) lo hi a b =
    let (m, e) = least_time-some y timed in
    let first = time-cons x (y ∷ timed) m e in
    let rest = ap time_number e in
    (
      omega (arith, a, first),
      omega (arith, b),
      times_of-Between y timed lo hi (omega (arith, a, first, rest)) (omega (arith, b)),
    )

-- What the videos' clock promises: where it advances, it is not before the earliest of them, nor, while
-- leaders wait, before where it was.
abbrev NotBefore : ℕ → Phase × Player → Type 0
NotBefore earliest r = r.0 ≡ advanced → earliest ≤ time_number r.1.world.current_time

advance-NotBefore :
    (time earliest : ℕ) (p : Player) → earliest ≤ time → NotBefore earliest (advance time p)
advance-NotBefore time earliest p h e =
    omega (arith, h, reconcile_playback_position-forward (set_clock time p))

abbrev is_drift : Phase → Bool
is_drift drift = true
is_drift stopped = false
is_drift stepped = false
is_drift buffering = false
is_drift alignment = false
is_drift advanced = false

middle-le :
    (x : Timed) (timed : List Timed)
    → time_number (least_time (x ∷ timed)) ≤ time_number (median_time (times_of (x ∷ timed)))
unfolding finite_times
middle-le x timed =
    let hi : ℕ = greatest_time (x ∷ timed) in
    let lo : ℕ = time_number (least_time (x ∷ timed)) in
    let (m, e, low, high) =
      (median_time_bounds (times_of (x ∷ timed)) lo hi
          (times_of-Between x timed lo hi (omega arith) (omega arith))).0
        (omega arith) in
    omega (arith, low, ap time_number e)

follow_videos-NotBefore :
    (p : Player) (x : Timed) (timed : List Timed)
    → NotBefore (time_number (least_time (x ∷ timed))) (follow_videos p (x ∷ timed))
follow_videos-NotBefore p x timed =
    let all : List Timed = x ∷ timed in
    let middle : ℕ = time_number (median_time (times_of all)) in
    let earliest : ℕ = time_number (least_time all) in
    let limit : ℕ = playback_spread_limit p.world (map {A = Timed} (λ y. y.0) all) in
    let synchronized : Bool × List Timed = synchronize_native_progress p.world limit all in
    let after : Player = record p { videos = replace_all synchronized.1 p.videos } in
    let worst : Option ℕ = elim (outlier middle all none) [
      | none ↦ none
      | some y ↦ some (y.0.camera)
    ] in
    if_all (NotBefore earliest) synchronized.0
      {x = advance (max (time_number p.world.current_time) earliest) after}
      (advance-NotBefore (max (time_number p.world.current_time) earliest) earliest after
        (omega arith))
      (if_all (NotBefore earliest) (ltb limit (greatest_time all - earliest))
        {x = (drift, enter_buffering_barrier worst after)} {y = advance middle after}
        (λ e. absurd (ground (arith, ap is_drift e)))
        (advance-NotBefore middle earliest after (middle-le x timed)))

-- Where there are videos with a time and the step moves the clock, the clock is then not before the
-- earliest of them.
pub move_clock_after_earliest :
    (p : Player) (x : Timed) (timed : List Timed)
    → timed_videos p.videos ≡ x ∷ timed
    → (move_clock p).0 ≡ advanced
    → time_number (least_time (x ∷ timed)) ≤ time_number (move_clock p).1.world.current_time
unfolding move_clock
move_clock_after_earliest p x timed e =
    subst
      (λ (ts : List Timed).
        NotBefore (time_number (least_time (x ∷ timed)))
          (elim ts [ [] ↦ follow_wall p | y ∷ others ↦ follow_videos p (y ∷ others) ]))
      (sym e) (follow_videos-NotBefore p x timed)
