-- ===== src/Trace/Partition.antt =====
-- The totals of a session share out the time that has passed.
use mathlib.Core.Path.{subst}
use cctv_timeline_viewer_cor.Base.{
  ltb, leb, if◌then◌else◌, leb→le, if_all, if_cases, ℕ, ◌+◌, ◌-◌, ◌≤◌, ◌≡◌, refl, not, ◌||◌, none,
  some, List, [], ◌∷◌, arith,
}
use cctv_timeline_viewer_cor.Trace.{
  Totals, empty_totals, Moment, is_jump, count_advance, count_playing, count_gap,
  accumulate_session, accumulate_all,
}

-- The time of a session, and what of it was played.
abbrev pub Shares : ℕ → Totals → Type 0
Shares elapsed t =
    (t.observed_ms + t.unobserved_ms ≡ elapsed)
    × (t.playing_ms ≤ t.observed_ms)
    × (t.buffering_ms ≤ t.playing_ms)
    × (t.stalled_ms ≤ t.playing_ms)

-- Totals before the stalls of the last step are counted.
abbrev Room : ℕ → ℕ → Totals → Type 0
Room elapsed dt t =
    (t.observed_ms + t.unobserved_ms ≡ elapsed)
    × (t.playing_ms ≤ t.observed_ms)
    × (t.buffering_ms ≤ t.playing_ms)
    × (t.stalled_ms + dt ≤ t.playing_ms)

count_advance-Shares :
    (elapsed dt : ℕ) (t : Totals) (previous current : Moment)
    → Room elapsed dt t
    → Shares elapsed (count_advance t dt previous current)
count_advance-Shares elapsed dt t previous current (a, b, c, d) =
    if_all (Shares elapsed) (is_jump dt previous current)
      {x = record t { discontinuities = t.discontinuities + 1 }} (a, b, c, omega (arith, d))
      (if_all (Shares elapsed) _ {x = record t { stalled_ms = t.stalled_ms + dt }} (a, b, c, d)
        (if_all (Shares elapsed) (ltb previous.time current.time)
          {x = record t { timeline_time = t.timeline_time + (current.time - previous.time) }}
          {y = t} (a, b, c, omega (arith, d)) (a, b, c, omega (arith, d))))

count_playing-Shares :
    (elapsed dt : ℕ) (t : Totals) (previous current : Moment)
    → Shares elapsed t
    → t.playing_ms + dt ≤ t.observed_ms
    → Shares elapsed (count_playing t dt previous current)
count_playing-Shares elapsed dt t previous current (a, b, c, d) room =
    let waited : ℕ = if previous.is_buffering || current.is_buffering then dt else 0 in
    let few : waited ≤ dt =
      if_all (λ n. n ≤ dt) (previous.is_buffering || current.is_buffering) (omega arith)
        (omega arith) in
    if_all (Shares elapsed) (not previous.is_playing || not current.is_playing) {x = t} (a, b, c, d)
      (count_advance-Shares elapsed dt
        (record t { playing_ms = t.playing_ms + dt; buffering_ms = t.buffering_ms + waited })
        previous current (a, room, omega (arith, c, few), omega (arith, d)))

count_gap-Shares :
    (elapsed : ℕ) (t : Totals) (previous current : Moment)
    → Shares elapsed t
    → Shares (elapsed + (current.wall - previous.wall)) (count_gap t previous current)
count_gap-Shares elapsed t previous current (a, b, c, d) =
    let dt : ℕ = current.wall - previous.wall in
    if_cases (Shares (elapsed + dt)) (leb current.wall previous.wall) {x = t}
      (λ e. (omega (arith, a, leb→le _ _ e), b, c, d))
      (λ e.
        if_all (Shares (elapsed + dt)) (ltb 5000 dt || previous.is_hidden || current.is_hidden)
          {x = record t { unobserved_ms = t.unobserved_ms + dt }} (omega (arith, a), b, c, d)
          (count_playing-Shares (elapsed + dt) dt (record t { observed_ms = t.observed_ms + dt })
            previous current (omega (arith, a), omega (arith, b), c, d) (omega (arith, b))))

-- The wall time of the last sample; the samples come in the order of their wall times.
abbrev pub last_wall_of : Moment → List Moment → ℕ
last_wall_of m [] = m.wall
last_wall_of m (n ∷ moments) = last_wall_of n moments

abbrev pub InOrder : Moment → List Moment → Type 0
InOrder m [] = Unit
InOrder m (n ∷ moments) = (m.wall ≤ n.wall) × InOrder n moments

last_wall-le :
    (m : Moment) (moments : List Moment) → InOrder m moments → m.wall ≤ last_wall_of m moments
last_wall-le m [] h = omega arith
last_wall-le m (n ∷ moments) h = omega (arith, h.0, last_wall-le n moments h.1)

rest-Shares :
    (elapsed : ℕ) (t : Totals) (m : Moment) (moments : List Moment)
    → InOrder m moments
    → Shares elapsed t
    → Shares (elapsed + (last_wall_of m moments - m.wall)) (accumulate_all t (some m) moments)
unfolding accumulate_all accumulate_session
rest-Shares elapsed t m [] h (a, b, c, d) = (omega (arith, a), b, c, d)
rest-Shares elapsed t m (n ∷ moments) h s =
    let later : n.wall ≤ last_wall_of n moments = last_wall-le n moments h.1 in
    subst (λ e. Shares e (accumulate_all (count_gap t m n) (some n) moments))
      (omega (arith, later, h.0))
      (rest-Shares (elapsed + (n.wall - m.wall)) (count_gap t m n) n moments h.1
        (count_gap-Shares elapsed t m n s))

-- Over samples in the order of their wall times, the observed and the unobserved time of a session add
-- up to the time from the first sample to the last, and the playing time is part of the observed one, as
-- the buffering and the stalled time are of the playing one.
pub accumulate_all-Shares :
    (m : Moment) (moments : List Moment)
    → InOrder m moments
    → Shares (last_wall_of m moments - m.wall) (accumulate_all empty_totals none (m ∷ moments))
unfolding accumulate_all accumulate_session
accumulate_all-Shares m moments h =
    subst (λ e. Shares e (accumulate_all empty_totals (some m) moments)) (omega arith)
      (rest-Shares 0 empty_totals m moments h (refl, omega arith, omega arith, omega arith))
